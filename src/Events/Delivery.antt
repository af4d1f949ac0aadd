-- ===== src/Events/Delivery.antt =====
-- internal/application/service.go: what the subscribers get of the published events.
use mathlib.Core.List.{append_assoc, append-nil}
use filelist_streaming_servi.Base.{
  ℕ, zero, suc, ◌≤◌, ◌≡◌, refl, sym, ap, ◌∙◌, Bool, true, not, List, [], ◌∷◌, ◌++◌, All, All-mono,
  All-append, arith, length, length-append, keep, map, Bool-cases, ◌==◌, inl, inr, String,
}
use filelist_streaming_servi.Events.{
  JournalEvent, Channel, Bus, buffer_size, append_event, has_room, push, fan_out, subscribe,
  unsubscribe, receive, take_at, take_from, Turn, appends, fans, subscribes, unsubscribes, receives,
  stops, Arrived, starts, turned, take_first,
}

unfoldable pub drop : ℕ → List JournalEvent → List JournalEvent
drop zero events = events
drop (suc n) [] = []
drop (suc n) (e ∷ events) = drop n events

-- A subscriber has, or finds in its buffer, exactly the events sent since it subscribed.
pub record IsServed (sent : List JournalEvent) (c : Channel) : Type 0 where
  pub since : c.from ≤ length sent
  pub exact : c.taken ++ c.buffer ≡ drop c.from sent
  pub bounded : length c.buffer ≤ buffer_size

-- One that is no longer subscribed has the first of them, without a gap.
pub record WasServed (sent : List JournalEvent) (c : Channel) : Type 0 where
  pub since : c.from ≤ length sent
  pub after : List JournalEvent
  pub exact : (c.taken ++ c.buffer) ++ after ≡ drop c.from sent
  pub bounded : length c.buffer ≤ buffer_size

record IsDelivered (b : Bus) : Type 0 where
  served : All (IsServed b.sent) b.subscribers
  was_served : All (WasServed b.sent) b.closed

pub drop-append :
    (n : ℕ) (events more : List JournalEvent)
    → n ≤ length events
    → drop n (events ++ more) ≡ drop n events ++ more
unfolding drop
drop-append zero events more h = refl
drop-append (suc n) [] more h = absurd (omega arith)
drop-append (suc n) (e ∷ events) more h = drop-append n events more (omega arith)

pub drop-length : (events : List JournalEvent) → drop (length events) events ≡ []
unfolding drop
drop-length [] = refl
drop-length (e ∷ events) = drop-length events

All-keep : {A : Type 0} (P : A → Type 0) (p : A → Bool) (xs : List A) → All P xs → All P (keep p xs)
All-keep P p [] h = tt
All-keep P p (x ∷ xs) h = elim (Bool-cases (p x)) [
  | inl e ↦ rw e (h.0, All-keep P p xs h.1)
  | inr e ↦ rw e (All-keep P p xs h.1)
]

All-map :
    {A : Type 0} (P Q : A → Type 0) (f : A → A) (xs : List A)
    → ((x : A) → P x → Q (f x))
    → All P xs
    → All Q (map f xs)
All-map P Q f [] g h = tt
All-map P Q f (x ∷ xs) g h = (g x h.0, All-map P Q f xs g h.1)

-- What is kept by a test has it.
All-kept :
    {A : Type 0} (P : A → Type 0) (p : A → Bool) (xs : List A)
    → All P xs
    → All (λ x. P x × (p x ≡ true)) (keep p xs)
All-kept P p [] h = tt
All-kept P p (x ∷ xs) h = elim (Bool-cases (p x)) [
  | inl e ↦ rw e ((h.0, e), All-kept P p xs h.1)
  | inr e ↦ rw e (All-kept P p xs h.1)
]

pushed-IsServed :
    (sent : List JournalEvent) (event : JournalEvent) (c : Channel)
    → IsServed sent c × (has_room c ≡ true)
    → IsServed (sent ++ (event ∷ [])) (push event c)
unfolding has_room push
pushed-IsServed sent event c (s, room) = record {
  since = omega (arith, s.since, length-append sent (event ∷ []));
  exact =
      sym (append_assoc c.taken c.buffer (event ∷ []))
      ∙ ap (λ (l : List JournalEvent). l ++ (event ∷ [])) s.exact
      ∙ sym (drop-append c.from sent (event ∷ []) s.since);
  bounded = ground (arith, length-append c.buffer (event ∷ []));
}

left-WasServed : (sent : List JournalEvent) (c : Channel) → IsServed sent c → WasServed sent c
left-WasServed sent c s = record {
  since = s.since;
  after = [];
  exact = append-nil (c.taken ++ c.buffer) ∙ s.exact;
  bounded = s.bounded;
}

later-WasServed :
    (sent : List JournalEvent) (event : JournalEvent) (c : Channel)
    → WasServed sent c
    → WasServed (sent ++ (event ∷ [])) c
later-WasServed sent event c s = record {
  since = omega (arith, s.since, length-append sent (event ∷ []));
  after = s.after ++ (event ∷ []);
  exact =
      sym (append_assoc (c.taken ++ c.buffer) s.after (event ∷ []))
      ∙ ap (λ (l : List JournalEvent). l ++ (event ∷ [])) s.exact
      ∙ sym (drop-append c.from sent (event ∷ []) s.since);
  bounded = s.bounded;
}

-- What a reader does to a channel.
take_first-exact :
    (c : Channel) (buffer : List JournalEvent)
    → c.buffer ≡ buffer
    → ((take_first c buffer).taken ++ (take_first c buffer).buffer ≡ c.taken ++ buffer)
      × (length (take_first c buffer).buffer ≤ length buffer)
      × ((take_first c buffer).from ≡ c.from)
unfolding take_first
take_first-exact c [] h = (ap (λ (l : List JournalEvent). c.taken ++ l) h, ground arith, refl)
take_first-exact c (e ∷ buffer) h = (append_assoc c.taken (e ∷ []) buffer, omega arith, refl)

take_from-exact :
    (c : Channel)
    → ((take_from c).taken ++ (take_from c).buffer ≡ c.taken ++ c.buffer)
      × (length (take_from c).buffer ≤ length c.buffer)
      × ((take_from c).from ≡ c.from)
unfolding take_from
take_from-exact c = take_first-exact c c.buffer refl

take_at-exact :
    (number : ℕ) (c : Channel)
    → ((take_at number c).taken ++ (take_at number c).buffer ≡ c.taken ++ c.buffer)
      × (length (take_at number c).buffer ≤ length c.buffer)
      × ((take_at number c).from ≡ c.from)
unfolding take_at
take_at-exact number c = elim (Bool-cases (c.number == number)) [
  | inr e ↦ rw (take_at, e) (refl, omega arith, refl)
  | inl e ↦ rw (take_at, e) (take_from-exact c)
]

taken-IsServed :
    (sent : List JournalEvent) (number : ℕ) (c : Channel)
    → IsServed sent c
    → IsServed sent (take_at number c)
taken-IsServed sent number c s =
    let t = take_at-exact number c in
    record {
      since = omega (arith, s.since, t.2);
      exact = t.0 ∙ s.exact ∙ ap (λ n. drop n sent) (sym t.2);
      bounded = omega (arith, s.bounded, t.1);
    }

taken-WasServed :
    (sent : List JournalEvent) (number : ℕ) (c : Channel)
    → WasServed sent c
    → WasServed sent (take_at number c)
taken-WasServed sent number c s =
    let t = take_at-exact number c in
    record {
      since = omega (arith, s.since, t.2);
      after = s.after;
      exact =
          ap (λ (l : List JournalEvent). l ++ s.after) t.0
          ∙ s.exact
          ∙ ap (λ n. drop n sent) (sym t.2);
      bounded = omega (arith, s.bounded, t.1);
    }

fan_out-IsDelivered :
    (event : JournalEvent) (pending : List JournalEvent) (b : Bus)
    → IsDelivered b
    → IsDelivered (fan_out event (record b { pending = pending }))
unfolding fan_out
fan_out-IsDelivered event pending b d =
    let more = b.sent ++ (event ∷ []) in
    record {
      served =
          All-map (λ c. IsServed b.sent c × (has_room c ≡ true)) (IsServed more) (push event)
            (keep has_room b.subscribers) (pushed-IsServed b.sent event)
            (All-kept (IsServed b.sent) has_room b.subscribers d.served);
      was_served =
          All-append (WasServed more) (keep (λ c. not (has_room c)) b.subscribers) b.closed
            (All-mono (IsServed b.sent) (WasServed more)
              (keep (λ c. not (has_room c)) b.subscribers)
              (λ c s. later-WasServed b.sent event c (left-WasServed b.sent c s))
              (All-keep (IsServed b.sent) (λ c. not (has_room c)) b.subscribers d.served))
            (All-mono (WasServed b.sent) (WasServed more) b.closed (later-WasServed b.sent event)
              d.was_served);
    }

subscribe-IsDelivered : (b : Bus) → IsDelivered b → IsDelivered (subscribe b)
unfolding subscribe
subscribe-IsDelivered b d = record {
  served =
      All-append (IsServed b.sent) b.subscribers _ d.served (
        record { since = omega arith; exact = sym (drop-length b.sent); bounded = omega arith },
        tt,
      );
  was_served = d.was_served;
}

unsubscribe-IsDelivered :
    (number : ℕ) (b : Bus) → IsDelivered b → IsDelivered (unsubscribe number b)
unfolding unsubscribe
unsubscribe-IsDelivered number b d = record {
  served = All-keep (IsServed b.sent) (λ c. not (c.number == number)) b.subscribers d.served;
  was_served =
      All-append (WasServed b.sent) (keep (λ c. c.number == number) b.subscribers) b.closed
        (All-mono (IsServed b.sent) (WasServed b.sent)
          (keep (λ c. c.number == number) b.subscribers) (left-WasServed b.sent)
          (All-keep (IsServed b.sent) (λ c. c.number == number) b.subscribers d.served))
        d.was_served;
}

receive-IsDelivered : (number : ℕ) (b : Bus) → IsDelivered b → IsDelivered (receive number b)
unfolding receive
receive-IsDelivered number b d = record {
  served =
      All-map (IsServed b.sent) (IsServed b.sent) (take_at number) b.subscribers
        (taken-IsServed b.sent number) d.served;
  was_served =
      All-map (WasServed b.sent) (WasServed b.sent) (take_at number) b.closed
        (taken-WasServed b.sent number) d.was_served;
}

append-same :
    (refused : Bool) (kind payload : String) (b : Bus)
    → ((append_event refused kind payload b).sent ≡ b.sent)
      × ((append_event refused kind payload b).subscribers ≡ b.subscribers)
      × ((append_event refused kind payload b).closed ≡ b.closed)
unfolding append_event
append-same refused kind payload b = (ground arith, ground arith, ground arith)

append-IsDelivered :
    (refused : Bool) (kind payload : String) (b : Bus)
    → IsDelivered b
    → IsDelivered (append_event refused kind payload b)
unfolding append_event
append-IsDelivered refused kind payload b d =
    let same = append-same refused kind payload b in
    record {
      served = rw same.0 (rw same.1 d.served);
      was_served = rw same.0 (rw same.2 d.was_served);
    }

Turn-IsDelivered : {b c : Bus} → Turn b c → IsDelivered b → IsDelivered c
Turn-IsDelivered (appends b refused kind payload) d = append-IsDelivered refused kind payload b d
Turn-IsDelivered (fans b before event rest e) d = fan_out-IsDelivered event (before ++ rest) b d
Turn-IsDelivered (subscribes b) d = subscribe-IsDelivered b d
Turn-IsDelivered (unsubscribes b number) d = unsubscribe-IsDelivered number b d
Turn-IsDelivered (receives b number) d = receive-IsDelivered number b d
Turn-IsDelivered (stops b) d = record { served = d.served; was_served = d.was_served }

Arrived-IsDelivered : {b : Bus} → Arrived b → IsDelivered b
Arrived-IsDelivered (starts journal) = record { served = tt; was_served = tt }
Arrived-IsDelivered (turned a t) = Turn-IsDelivered t (Arrived-IsDelivered a)

-- However publishers, readers and subscriptions interleave: a subscriber has taken, or finds in its
-- buffer, exactly the events fanned out since it subscribed, in that order; one that was closed, by itself
-- or because its buffer was full, has the first of them without a gap; and no buffer holds more than 32.
pub Arrived-delivered :
    {b : Bus} → Arrived b → All (IsServed b.sent) b.subscribers × All (WasServed b.sent) b.closed
Arrived-delivered a = let d = Arrived-IsDelivered a in (d.served, d.was_served)
