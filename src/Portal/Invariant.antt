-- ===== src/Portal/Invariant.antt =====
-- internal/application/portal/hub.go: what holds of the hub between two operations.
use filelist_streaming_servi.Base.{
  ℕ, ◌≡◌, refl, inl, inr, Bool, true, false, Option, none, some, List, [], ◌∷◌, String, Result, ok,
  err, arith, Bool-cases, ◌∙◌, subst, sym,
}
use filelist_streaming_servi.Portal.{
  Hub, HubState, HubError, Cycle, Call, Progress, stale, reached, gated, promotion_stage,
  account_stage, settings_stage, cycle_progress, refresh, expire_donor, account_state, no_donor,
  links_state, finish, note_settings, PublicSettings, settings_failed,
}
use filelist_streaming_servi.Portal.Operations.{refresh_notice, account_operation, click}

-- The relations between the hub's fields.
pub record Inv (s : HubState) : Type 0 where
  pub live_ads : s.promotion_live ≡ true → s.ads_enabled ≡ true
  pub live_no_donor : s.promotion_live ≡ true → s.donor ≡ false
  pub held_live : s.promotion_live ≡ false → s.promotions ≡ []
  pub expiry_donor : s.donor ≡ false → s.donor_until ≡ 0
  pub accounts_donor : s.accounts_enabled ≡ false → s.donor ≡ false

abbrev ProgressInv : Progress → Type 0
ProgressInv (stale e calls) = Unit
ProgressInv (reached next calls) = Inv next

Inv-promotion_stage :
    (ads : Bool) (c : Cycle) (next : HubState) (calls : List Call)
    → next.ads_enabled ≡ ads
    → (next.donor ≡ false → next.donor_until ≡ 0)
    → (next.promotion_live ≡ false → next.promotions ≡ [])
    → (next.accounts_enabled ≡ false → next.donor ≡ false)
    → ProgressInv (promotion_stage ads c next calls)
unfolding promotion_stage
Inv-promotion_stage ads c next calls a d p q = ground arith

account_state-keeps :
    (c : Cycle) (next : HubState)
    → (account_state c next).ads_enabled ≡ next.ads_enabled
      × ((account_state c next).promotion_live ≡ next.promotion_live)
      × ((account_state c next).promotions ≡ next.promotions)
unfolding account_state no_donor
account_state-keeps c next = (ground arith, ground arith, ground arith)

account_state-expiry :
    (c : Cycle) (next : HubState)
    → (account_state c next).donor ≡ false
    → (account_state c next).donor_until ≡ 0
unfolding account_state no_donor
account_state-expiry c next d = ground arith

account_state-accounts :
    (c : Cycle) (next : HubState)
    → next.accounts_enabled ≡ true
    → (account_state c next).accounts_enabled ≡ false
    → (account_state c next).donor ≡ false
unfolding account_state no_donor
account_state-accounts c next on off = ground arith

ProgressInv-gated :
    (g : Option HubError) (calls : List Call) (next : List Call → Progress)
    → ((calls' : List Call) → ProgressInv (next calls'))
    → ProgressInv (gated g calls next)
unfolding gated
ProgressInv-gated none calls next h = h calls
ProgressInv-gated (some e) calls next h = tt

Inv-account_stage :
    (s : PublicSettings) (c : Cycle) (next : HubState) (calls : List Call)
    → next.ads_enabled ≡ s.ads_enabled
    → next.accounts_enabled ≡ s.accounts_enabled
    → (next.promotion_live ≡ false → next.promotions ≡ [])
    → ProgressInv (account_stage s c next calls)
unfolding account_stage no_donor
Inv-account_stage s c next calls a q p =
    let keeps = account_state-keeps c next in
    elim (Bool-cases s.accounts_enabled) [
      | inl e ↦ rw e (
          ProgressInv-gated c.account_gate _ _ λ calls'.
            Inv-promotion_stage s.ads_enabled c (account_state c next) calls' (keeps.0 ∙ a)
              (account_state-expiry c next) (λ dark. keeps.2 ∙ p (sym keeps.1 ∙ dark))
              (account_state-accounts c next (q ∙ e)))
      | inr e ↦
          rw e
            (Inv-promotion_stage s.ads_enabled c (no_donor next) calls a (λ _. refl) p (λ _. refl))
    ]

links_state-Inv :
    (c : Cycle) (next : HubState)
    → (links_state c next).ads_enabled ≡ next.ads_enabled
      × ((links_state c next).accounts_enabled ≡ next.accounts_enabled)
      × ((links_state c next).promotion_live ≡ next.promotion_live)
      × ((links_state c next).promotions ≡ next.promotions)
unfolding links_state
links_state-Inv c next = (ground arith, ground arith, ground arith, ground arith)

Inv-cycle_progress :
    (c : Cycle) (state : HubState) (calls : List Call)
    → Inv state
    → ProgressInv (cycle_progress c state calls)
unfolding cycle_progress settings_stage
Inv-cycle_progress c state calls h = ProgressInv-gated c.settings_gate _ _ λ calls'.
    elim c.settings
      as (λ x. ProgressInv (elim x [
        | err e ↦ reached (settings_failed state) calls'
        | ok s ↦ settings_stage s c state calls'
      ])) [
        | err e ↦ record {
          live_ads = λ x. ground arith;
          live_no_donor = λ x. ground arith;
          held_live = λ x. refl;
          expiry_donor = λ x. refl;
          accounts_donor = λ x. refl;
        }
        | ok s ↦ ProgressInv-gated c.links_gate _ _ λ calls''.
            let on = record state {
              accounts_enabled = s.accounts_enabled;
              ads_enabled = s.ads_enabled;
            } in
            let keeps = links_state-Inv c on in
            Inv-account_stage s c (links_state c on) calls'' keeps.0 keeps.1
              (λ dark. keeps.3 ∙ h.held_live (sym keeps.2 ∙ dark))
      ]

finish-Inv : (p : Progress) (h : Hub) → ProgressInv p → Inv h.state → Inv (finish p h).state
unfolding finish
finish-Inv (stale e calls) h i j = j
finish-Inv (reached next calls) h i j = i

note_settings-state : (key : String) (h : Hub) → (note_settings key h).0.state ≡ h.state
unfolding note_settings
note_settings-state key h = ground arith

refresh-Inv : (key : String) (c : Cycle) (h : Hub) → Inv h.state → Inv (refresh key c h).state
unfolding refresh
refresh-Inv key c h i =
    let h' = (note_settings key h).0 in
    let i' = subst Inv (sym (note_settings-state key h)) i in
    finish-Inv (cycle_progress c h'.state h'.calls) h' (Inv-cycle_progress c h'.state h'.calls i')
      i'

expire_donor-Inv : (now : ℕ) (h : Hub) → Inv h.state → Inv (expire_donor now h).state
unfolding expire_donor
expire_donor-Inv now h i = record {
  live_ads = λ x. ground arith;
  live_no_donor = λ x. ground arith;
  held_live = λ x. ground arith;
  expiry_donor = λ x. ground arith;
  accounts_donor = λ x. ground arith;
}

account_operation-Inv :
    (call : Call) (answer : Result HubError String) (h : Hub)
    → Inv h.state
    → Inv (account_operation call answer h).0.state
unfolding account_operation
account_operation-Inv call answer h i = record {
  live_ads = λ x. ground arith;
  live_no_donor = λ x. ground arith;
  held_live = λ x. ground arith;
  expiry_donor = λ x. ground arith;
  accounts_donor = λ x. ground arith;
}

pub click-state : (answer : Result HubError String) (h : Hub) → (click answer h).0.state ≡ h.state
unfolding click
click-state answer h = ground arith

pub refresh_notice-state :
    (answer : Result HubError String) (h : Hub) → (refresh_notice answer h).0.state ≡ h.state
unfolding refresh_notice
refresh_notice-state answer h = ground arith

-- One operation of the hub, with what the upstream answers.
pub data Action : Type 0 where
  refreshed : String → Cycle → Action
  expired : ℕ → Action
  noticed : Result HubError String → Action
  account_used : Call → Result HubError String → Action
  clicked : Result HubError String → Action

unfoldable pub act : Action → Hub → Hub
unfolding refresh expire_donor refresh_notice account_operation click
act (refreshed key c) h = refresh key c h
act (expired now) h = expire_donor now h
act (noticed answer) h = (refresh_notice answer h).0
act (account_used call answer) h = (account_operation call answer h).0
act (clicked answer) h = (click answer h).0

unfoldable pub act_all : List Action → Hub → Hub
unfolding act
act_all [] h = h
act_all (a ∷ as_) h = act_all as_ (act a h)

act-Inv : (a : Action) (h : Hub) → Inv h.state → Inv (act a h).state
unfolding act
act-Inv (refreshed key c) h i = refresh-Inv key c h i
act-Inv (expired now) h i = expire_donor-Inv now h i
act-Inv (noticed answer) h i = subst Inv (sym (refresh_notice-state answer h)) i
act-Inv (account_used call answer) h i = account_operation-Inv call answer h i
act-Inv (clicked answer) h i = subst Inv (sym (click-state answer h)) i

-- Whatever the upstream answers and whichever gates stop a cycle, every sequence of hub operations keeps
-- `Inv`: promotions only in a live slot, a live slot only with ads on and no donor, an expiry only for a
-- donor, and no donor with accounts off.
pub act_all-Inv : (as_ : List Action) (h : Hub) → Inv h.state → Inv (act_all as_ h).state
unfolding act_all
act_all-Inv [] h i = i
act_all-Inv (a ∷ as_) h i = act_all-Inv as_ (act a h) (act-Inv a h i)
