-- ===== src/Events/Clients.antt =====
-- internal/adapters/httpapi/api.go, `events`: the stream of a client that connects again.
use mathlib.Core.List.{append-nil}
use filelist_streaming_servi.Base.{
  ℕ, zero, suc, ◌+◌, ◌-◌, ◌≤◌, ◌≡◌, ◌↔◌, refl, sym, ap, ◌∙◌, Bool, true, false, ◌⊎◌, List, [], ◌∷◌,
  ◌++◌, In, All-in, arith, length, length-append, keep, ltb, Bool-cases, inl, inr, subst, Bool, ◌⊎◌,
}
use filelist_streaming_servi.Events.{
  JournalEvent, Channel, Bus, Arrived, first_events, list_events, client_stream,
}
use filelist_streaming_servi.Events.Delivery.{
  drop, drop-append, IsServed, Arrived-delivered, drop-length,
}

-- The ids count up from `n`.
abbrev pub Numbered : ℕ → List JournalEvent → Type 0
Numbered n [] = Unit {0}
Numbered n (e ∷ events) = (e.id ≡ suc n) × Numbered (suc n) events

keep-all :
    (after n : ℕ) (events : List JournalEvent)
    → Numbered n events
    → after ≤ n
    → keep (λ e. ltb after e.id) events ≡ events
keep-all after n [] h l = refl
keep-all after n (e ∷ events) h l = ground (arith, keep-all after (suc n) events h.1 (omega arith))

drop-none : (n : ℕ) → drop n [] ≡ []
unfolding drop
drop-none zero = refl
drop-none (suc n) = refl

suc_add : (b a : ℕ) → suc (b + a) ≡ suc b + a
suc_add b a = omega arith

keep-Numbered :
    (at n : ℕ) (events : List JournalEvent)
    → Numbered n events
    → keep (λ e. ltb at e.id) events ≡ drop (at - n) events
unfolding drop
keep-Numbered at n [] h = sym (drop-none (at - n))
keep-Numbered at n (e ∷ events) h = elim (Bool-cases (ltb n at)) [
  | inl above ↦
      let gap : at - n ≡ suc (at - suc n) = ground arith in
      let skipped : ltb at e.id ≡ false = ground arith in
      rw (gap, skipped) (keep-Numbered at (suc n) events h.1)
  | inr below ↦
      let gap : at - n ≡ 0 = ground arith in rw gap (keep-all at n (e ∷ events) h (ground arith))
]

drop-drop : (a b : ℕ) (events : List JournalEvent) → drop a (drop b events) ≡ drop (b + a) events
unfolding drop
drop-drop a zero events = ap (λ n. drop n events) (omega arith)
drop-drop a (suc b) [] = drop-none a ∙ sym (drop-none (suc b + a))
drop-drop a (suc b) (e ∷ events) =
    drop-drop a b events ∙ ap (λ n. drop n (e ∷ events)) (suc_add b a)

length-drop : (n : ℕ) (events : List JournalEvent) → length (drop n events) ≡ length events - n
unfolding drop
length-drop zero events = ground arith
length-drop (suc n) [] = ground arith
length-drop (suc n) (e ∷ events) = ground (arith, length-drop n events)

first_events-all :
    (n : ℕ) (events : List JournalEvent) → length events ≤ n → first_events n events ≡ events
unfolding first_events
first_events-all zero [] h = refl
first_events-all zero (e ∷ events) h = absurd (omega arith)
first_events-all (suc n) [] h = refl
first_events-all (suc n) (e ∷ events) h =
    ap (λ (l : List JournalEvent). e ∷ l) (first_events-all n events (omega arith))

length-first_events-le :
    (n : ℕ) (events : List JournalEvent)
    → (length (first_events n events) ≤ n) × (length (first_events n events) ≤ length events)
unfolding first_events
length-first_events-le zero events = (omega arith, omega arith)
length-first_events-le (suc n) [] = (omega arith, omega arith)
length-first_events-le (suc n) (e ∷ events) = ground (arith, length-first_events-le n events)

Numbered-prefix : (n : ℕ) (old more : List JournalEvent) → Numbered n (old ++ more) → Numbered n old
Numbered-prefix n [] more h = tt
Numbered-prefix n (e ∷ old) more h = (h.0, Numbered-prefix (suc n) old more h.1)

replay_lem :
    (after : ℕ) (old : List JournalEvent)
    → Numbered 0 old
    → list_events after 200 old ≡ first_events 200 (drop after old)
unfolding list_events
replay_lem after old h =
    ap (first_events 200) (keep-Numbered after 0 old h ∙ ap (λ n. drop n old) (omega arith))

stream_exact :
    (after : ℕ) (old more : List JournalEvent)
    → length old - after ≤ 200
    → after ≤ length old
    → first_events 200 (drop after old) ++ drop (length old) (old ++ more)
      ≡ drop after (old ++ more)
stream_exact after old more few asked =
    ap (λ (l : List JournalEvent). l ++ drop (length old) (old ++ more))
      (first_events-all 200 (drop after old) (omega (arith, length-drop after old)))
    ∙ ap (λ (l : List JournalEvent). drop after old ++ l)
        (drop-append (length old) old more (omega arith)
          ∙ ap (λ (l : List JournalEvent). l ++ more) (drop-length old))
    ∙ sym (drop-append after old more asked)

-- What a client has taken where this process sent all events but the first `before`.
taken_exact :
    (b : Bus) (c : Channel) (before : ℕ)
    → Arrived b
    → In c b.subscribers
    → c.buffer ≡ []
    → b.sent ≡ drop before b.journal
    → c.taken ≡ drop (before + c.from) b.journal
taken_exact b c before a i read sent =
    let served = All-in (IsServed b.sent) c b.subscribers (Arrived-delivered a).0 i in
    sym (append-nil c.taken)
    ∙ ap (λ (l : List JournalEvent). c.taken ++ l) (sym read)
    ∙ served.exact
    ∙ ap (drop c.from) sent
    ∙ drop-drop c.from before b.journal

replayed_iff :
    (b : Bus) (c : Channel) (after before : ℕ) (old more : List JournalEvent)
    → Arrived b
    → In c b.subscribers
    → c.buffer ≡ []
    → b.journal ≡ old ++ more
    → Numbered 0 b.journal
    → b.sent ≡ drop before b.journal
    → after ≤ length old
    → length old ≤ before + c.from
    → before ≤ length b.journal
    → (list_events after 200 old ++ c.taken ≡ drop after b.journal)
      ↔ ((length old - after ≤ 200) × (before + c.from ≡ length old))
replayed_iff b c after before old more a i read grown numbered sent asked gone started =
    let served = All-in (IsServed b.sent) c b.subscribers (Arrived-delivered a).0 i in
    let taken = taken_exact b c before a i read sent in
    let replay : list_events after 200 old ≡ first_events 200 (drop after old) =
      replay_lem after old (Numbered-prefix 0 old more (subst (Numbered 0) grown numbered)) in
    let total = ap (length {A = JournalEvent}) grown ∙ length-append old more in
    let sizes = length-drop before b.journal in
    let sent_size = ap (length {A = JournalEvent}) sent in
    (
      λ whole.
          let sum =
            sym (length-append (list_events after 200 old) c.taken)
            ∙ ap (length {A = JournalEvent}) whole in
          omega (
            arith,
            sum,
            ap (length {A = JournalEvent}) replay,
            ap (length {A = JournalEvent}) taken,
            length-drop after b.journal,
            length-drop after old,
            length-drop (before + c.from) b.journal,
            length-first_events-le 200 (drop after old),
            served.since,
            total,
            sizes,
            sent_size,
          ),
      λ (few, once).
          ap (λ (l : List JournalEvent). l ++ c.taken) replay
          ∙ ap (λ (l : List JournalEvent). first_events 200 (drop after old) ++ l)
              (taken ∙ ap (λ n. drop n b.journal) once ∙ ap (drop (length old)) grown)
          ∙ stream_exact after old more few asked
          ∙ ap (drop after) (sym grown),
    )

drop-same :
    (m n : ℕ) (events : List JournalEvent)
    → m ≤ length events
    → n ≤ m
    → (drop m events ≡ drop n events) ↔ (n ≡ m)
drop-same m n events h l = (
  λ e. omega (arith, ap (length {A = JournalEvent}) e, length-drop m events, length-drop n events),
  λ e. ap (λ k. drop k events) (sym e),
)

-- A client that was told the events up to `after`, an id that the journal `old` has reached, asks for the
-- rest, and gets the replay of `old` or, where the database refuses, nothing; the journal then goes on. Let
-- its ids count up from 1; let this process have sent all but the first `before` of its events, in their
-- order; let no event of `old` be sent after the client's subscription; and let the client be subscribed
-- and have taken all that it was sent. Then it has got exactly the events of the journal after `after`
-- precisely where the replay was not refused or had nothing to give, the client missed at most 200 events,
-- and none was sent between the replay and its subscription.
pub client_stream_iff :
    (b : Bus) (c : Channel) (after before : ℕ) (old more : List JournalEvent) (refused : Bool)
    → Arrived b
    → In c b.subscribers
    → c.buffer ≡ []
    → b.journal ≡ old ++ more
    → Numbered 0 b.journal
    → b.sent ≡ drop before b.journal
    → after ≤ length old
    → length old ≤ before + c.from
    → before ≤ length b.journal
    → (client_stream refused after old c ≡ drop after b.journal) ↔ (
        ((refused ≡ false) ⊎ (after ≡ length old))
        × ((length old - after ≤ 200) × (before + c.from ≡ length old)))
unfolding client_stream
client_stream_iff b c after before old more false a i read grown numbered sent asked gone started =
    let whole =
      replayed_iff b c after before old more a i read grown numbered sent asked gone started in
    (λ h. (inl refl, whole.0 h), λ (_, h). whole.1 h)
client_stream_iff b c after before old more true a i read grown numbered sent asked gone started =
    let served = All-in (IsServed b.sent) c b.subscribers (Arrived-delivered a).0 i in
    let taken = taken_exact b c before a i read sent in
    let same =
      drop-same (before + c.from) after b.journal
        (omega
          (arith, served.since, length-drop before b.journal, ap (length {A = JournalEvent}) sent))
        (omega arith) in
    (
      λ h. let e = same.0 (sym taken ∙ h) in (inr (omega arith), (omega arith, omega arith)),
      λ h. taken ∙ same.1 (caught_up h),
    )
  where
    caught_up :
        ((true ≡ false) ⊎ (after ≡ length old))
          × ((length old - after ≤ 200) × (before + c.from ≡ length old))
        → after ≡ before + c.from
    caught_up (inl e, h) = absurd (ground arith)
    caught_up (inr e, h) = omega (arith, e, h.1)
