-- ===== src/Portal/Refresh.antt =====
-- internal/application/portal/hub.go: what one operation of the hub publishes, and which upstream calls a refresh makes.
use filelist_streaming_servi.Base.{
  ℕ, ◌+◌, ◌≡◌, refl, sym, ap, ◌∙◌, ◌&&◌, Bool, true, false, Option, none, some, List, [], ◌∷◌,
  String, Result, ok, arith, str_eq, eq_iff, ltb,
}
use filelist_streaming_servi.Portal.Invariant.{
  act, Action, refreshed, expired, noticed, account_used, clicked, refresh_notice-state,
  click-state,
}
use filelist_streaming_servi.Portal.Operations.{account_operation}
use filelist_streaming_servi.Portal.{
  promotions_call, Link, Hub, HubState, snapshot_changed, snapshot, xor, links_eq, link_eq, commit,
  finish, note_settings, refresh, expire_donor, Progress, Cycle, stale, cycle_progress, reached,
  Call, HubError, AccountStatus, gated, account_state, promotion_stage, account_stage,
  settings_stage, PublicSettings, account_call, settings_call, links_call,
}

link-of_eq : (a b : Link) → link_eq a b ≡ true → a ≡ b
unfolding link_eq
link-of_eq a b e =
    let i : a.id ≡ b.id = ground arith in
    let qt : str_eq a.title b.title ≡ true = ground arith in
    let t : a.title ≡ b.title = (eq_iff _ _).0 qt in
    let qu : str_eq a.url b.url ≡ true = ground arith in
    let u : a.url ≡ b.url = (eq_iff _ _).0 qu in
    let qd : str_eq a.description b.description ≡ true = ground arith in
    let d : a.description ≡ b.description = (eq_iff _ _).0 qd in
    λ k. record { id = i k; title = t k; url = u k; description = d k }

links-of_eq : (as_ bs : List Link) → links_eq as_ bs ≡ true → as_ ≡ bs
unfolding links_eq
links-of_eq [] [] e = refl
links-of_eq [] (b ∷ bs) e = ground arith
links-of_eq (a ∷ as_) [] e = ground arith
links-of_eq (a ∷ as_) (b ∷ bs) e =
    let here = link-of_eq a b (ground arith) in
    let rest = links-of_eq as_ bs (ground arith) in ground arith

xor-eq : (a b : Bool) → xor a b ≡ false → a ≡ b
unfolding xor
xor-eq true true e = refl
xor-eq true false e = ground arith
xor-eq false b e = sym e

snapshot-of_unchanged : (s t : HubState) → snapshot_changed s t ≡ false → snapshot s ≡ snapshot t
unfolding snapshot_changed snapshot
snapshot-of_unchanged s t e =
    let a = xor-eq s.accounts_enabled t.accounts_enabled (ground arith) in
    let ads = xor-eq s.ads_enabled t.ads_enabled (ground arith) in
    let live = xor-eq s.promotion_live t.promotion_live (ground arith) in
    let d = xor-eq s.donor t.donor (ground arith) in
    let l = links-of_eq s.links t.links (ground arith) in
    λ k. record { accounts_enabled = a k; ads_enabled = ads k && live k; donor = d k; links = l k }

commit-quiet :
    (next : HubState) (h : Hub)
    → (commit next h).emitted ≡ h.emitted
    → snapshot next ≡ snapshot h.state
unfolding commit
commit-quiet next h e = sym (snapshot-of_unchanged h.state next (ground arith))

finish-quiet :
    (p : Progress) (h : Hub)
    → (finish p h).emitted ≡ h.emitted
    → snapshot (finish p h).state ≡ snapshot h.state
unfolding finish commit
finish-quiet (stale e calls) h q = refl
finish-quiet (reached next calls) h q = commit-quiet next (record h { calls = calls }) q

note_settings-keeps :
    (key : String) (h : Hub)
    → ((note_settings key h).0.state ≡ h.state) × ((note_settings key h).0.emitted ≡ h.emitted)
unfolding note_settings
note_settings-keeps key h = (ground arith, ground arith)

refresh-quiet :
    (key : String) (c : Cycle) (h : Hub)
    → (refresh key c h).emitted ≡ h.emitted
    → snapshot (refresh key c h).state ≡ snapshot h.state
unfolding refresh
refresh-quiet key c h q =
    let h' = (note_settings key h).0 in
    let keeps = note_settings-keeps key h in
    finish-quiet (cycle_progress c h'.state h'.calls) h' (q ∙ sym keeps.1) ∙ ap snapshot keeps.0

expire_donor-quiet :
    (now : ℕ) (h : Hub)
    → (expire_donor now h).emitted ≡ h.emitted
    → snapshot (expire_donor now h).state ≡ snapshot h.state
unfolding expire_donor snapshot
expire_donor-quiet now h q = ground arith

account_operation-quiet :
    (call : Call) (answer : Result HubError String) (h : Hub)
    → (account_operation call answer h).0.emitted ≡ h.emitted
    → snapshot (account_operation call answer h).0.state ≡ snapshot h.state
unfolding account_operation snapshot
account_operation-quiet call answer h q = ground arith

-- Every operation of the hub that publishes nothing leaves the snapshot, what the household sees of the
-- hub, as it was.
pub act-quiet :
    (a : Action) (h : Hub)
    → (act a h).emitted ≡ h.emitted
    → snapshot (act a h).state ≡ snapshot h.state
unfolding act
act-quiet (refreshed key c) h q = refresh-quiet key c h q
act-quiet (expired now) h q = expire_donor-quiet now h q
act-quiet (noticed answer) h q = ap snapshot (refresh_notice-state answer h)
act-quiet (account_used call answer) h q = account_operation-quiet call answer h q
act-quiet (clicked answer) h q = ap snapshot (click-state answer h)

-- How many creatives deliveries, each an impression upstream, are among the calls.
unfoldable pub deliveries : List Call → ℕ
deliveries [] = 0
deliveries (promotions_call ∷ calls) = deliveries calls + 1
deliveries (_ ∷ calls) = deliveries calls

calls_of : Progress → List Call
calls_of (stale e calls) = calls
calls_of (reached next calls) = calls

unfoldable pub is_active_donor : ℕ → AccountStatus → Bool
is_active_donor now status =
    status.donor && elim status.donor_until [ none ↦ true | some until ↦ ltb now until ]

deliveries-gated :
    (n : ℕ) (g : Option HubError) (calls : List Call) (next : List Call → Progress)
    → deliveries calls ≡ n
    → ((calls' : List Call) → deliveries calls' ≡ n → deliveries (calls_of (next calls')) ≡ n)
    → deliveries (calls_of (gated g calls next)) ≡ n
unfolding gated calls_of
deliveries-gated n none calls next e h = h calls e
deliveries-gated n (some g) calls next e h = e

account_state-donor :
    (c : Cycle) (next : HubState) (status : AccountStatus)
    → c.account ≡ ok status
    → is_active_donor c.now status ≡ true
    → (account_state c next).donor ≡ true
unfolding account_state is_active_donor
account_state-donor c next status e d = ground arith

deliveries-promotion_stage :
    (ads : Bool) (c : Cycle) (next : HubState) (calls : List Call)
    → next.donor ≡ true
    → deliveries (calls_of (promotion_stage ads c next calls)) ≡ deliveries calls
unfolding promotion_stage calls_of
deliveries-promotion_stage ads c next calls d = ground arith

deliveries-account_stage :
    (s : PublicSettings) (c : Cycle) (next : HubState) (calls : List Call) (status : AccountStatus)
    → s.accounts_enabled ≡ true
    → c.account ≡ ok status
    → is_active_donor c.now status ≡ true
    → deliveries (calls_of (account_stage s c next calls)) ≡ deliveries calls
unfolding account_stage deliveries
deliveries-account_stage s c next calls status on e d = rw on (
    deliveries-gated (deliveries calls) c.account_gate (account_call ∷ calls) _ refl λ calls' same.
      deliveries-promotion_stage s.ads_enabled c (account_state c next) calls'
        (account_state-donor c next status e d)
      ∙ same)

deliveries-cycle :
    (s : PublicSettings) (c : Cycle) (state : HubState) (calls : List Call) (status : AccountStatus)
    → c.settings ≡ ok s
    → s.accounts_enabled ≡ true
    → c.account ≡ ok status
    → is_active_donor c.now status ≡ true
    → deliveries (calls_of (cycle_progress c state calls)) ≡ deliveries calls
unfolding cycle_progress settings_stage deliveries
deliveries-cycle s c state calls status set on e d =
    (deliveries-gated (deliveries calls) c.settings_gate (settings_call ∷ calls) _ refl
      λ calls' same. rw set (
        deliveries-gated (deliveries calls) c.links_gate (links_call ∷ calls') _ same
          λ calls'' same'. deliveries-account_stage s c _ calls'' status on e d ∙ same'))

finish-calls : (p : Progress) (h : Hub) → (finish p h).calls ≡ calls_of p
unfolding finish calls_of commit
finish-calls (stale e calls) h = refl
finish-calls (reached next calls) h = refl

note_settings-calls : (key : String) (h : Hub) → (note_settings key h).0.calls ≡ h.calls
unfolding note_settings
note_settings-calls key h = ground arith

-- Where the settings enable accounts and the account service answers an active donor, a refresh asks
-- upstream for no promotions, whatever the state before it, the other answers and the gates are.
pub refresh-no_delivery :
    (key : String) (c : Cycle) (h : Hub) (s : PublicSettings) (status : AccountStatus)
    → c.settings ≡ ok s
    → s.accounts_enabled ≡ true
    → c.account ≡ ok status
    → is_active_donor c.now status ≡ true
    → deliveries (refresh key c h).calls ≡ deliveries h.calls
unfolding refresh
refresh-no_delivery key c h s status set on e d =
    let h' = (note_settings key h).0 in
    ap deliveries (finish-calls (cycle_progress c h'.state h'.calls) h')
    ∙ deliveries-cycle s c h'.state h'.calls status set on e d
    ∙ ap deliveries (note_settings-calls key h)
