-- ===== src/Portal.antt =====
-- internal/application/portal/hub.go: the portal hub. The answers that one refresh cycle gets from the
-- upstream client, and what its gates find between the calls, are a parameter, `Cycle`; the state is
-- committed, and the event sink called, at the end of a cycle only. A time is a number with 0 for Go's
-- zero time. An upstream call that is made is noted in the log, newest first.
pub mod Operations
pub mod Invariant
pub mod Refresh
use filelist_streaming_servi.Base.{
  ℕ, zero, suc, ◌+◌, ◌-◌, Bool, true, false, not, ◌&&◌, ◌||◌, Option, none, some, List, [], ◌∷◌,
  String, Result, ok, err, str_eq, ltb, leb, ◌==◌, if◌then◌else◌,
}

pub record Link : Type 0 where
  pub id : ℕ
  pub title : String
  pub url : String
  pub description : String

pub record HubState : Type 0 where
  pub accounts_enabled : Bool
  pub ads_enabled : Bool
  pub promotion_live : Bool
  pub donor : Bool
  pub donor_until : ℕ
  pub links : List Link
  pub promotions : List String

pub data Call : Type 0 where
  settings_call links_call account_call availability_call promotions_call click_call login_call
        register_call me_call :
      Call

pub data HubError : Type 0 where
  credentials unavailable notice_absent accounts_unavailable promotions_unavailable superseded
        context_done other_error :
      HubError

pub record Hub : Type 0 where
  pub state : HubState
  pub generation : ℕ
  pub last_key : String
  pub notice : Option String  -- `notice` where `hasNotice`
  pub emitted : ℕ  -- how often `portal.state` was published
  pub calls : List Call

pub record Snapshot : Type 0 where
  pub accounts_enabled : Bool
  pub ads_enabled : Bool
  pub donor : Bool
  pub links : List Link

unfoldable pub snapshot : HubState → Snapshot
snapshot s = record {
  accounts_enabled = s.accounts_enabled;
  ads_enabled = s.ads_enabled && s.promotion_live;
  donor = s.donor;
  links = s.links;
}

pub record PublicSettings : Type 0 where
  pub accounts_enabled : Bool
  pub ads_enabled : Bool

pub record AccountStatus : Type 0 where
  pub donor : Bool
  pub donor_until : Option ℕ

-- The upstream answers of one cycle, and what each gate finds: none, or why the cycle is stale.
pub record Cycle : Type 0 where
  pub now : ℕ
  pub settings : Result HubError PublicSettings
  pub links : Result HubError (List Link)
  pub account : Result HubError AccountStatus
  pub availability : Result HubError Bool
  pub promotions : Result HubError (List String)
  pub settings_gate : Option HubError
  pub links_gate : Option HubError
  pub account_gate : Option HubError
  pub availability_gate : Option HubError
  pub promotions_gate : Option HubError

-- `noteSettings` with the key that the settings reader returns.
unfoldable pub note_settings : String → Hub → Hub × Bool
note_settings key h =
    if str_eq key h.last_key
    then (h, false)
    else (record h { last_key = key; generation = h.generation + 1 }, true)

pub link_eq : Link → Link → Bool
link_eq a b =
    a.id == b.id
    && (str_eq a.title b.title && (str_eq a.url b.url && str_eq a.description b.description))

-- `slices.Equal`.
links_eq : List Link → List Link → Bool
unfolding link_eq
links_eq [] [] = true
links_eq (a ∷ as_) (b ∷ bs) = link_eq a b && links_eq as_ bs
links_eq _ _ = false

xor : Bool → Bool → Bool
xor true b = not b
xor false b = b

unfoldable pub snapshot_changed : HubState → HubState → Bool
unfolding links_eq xor
snapshot_changed before after =
    xor before.accounts_enabled after.accounts_enabled
    || (xor before.ads_enabled after.ads_enabled
        || (xor before.promotion_live after.promotion_live
            || (xor before.donor after.donor
                || (not (before.donor_until == after.donor_until)
                    || not (links_eq before.links after.links)))))

unfoldable pub commit : HubState → Hub → Hub
unfolding snapshot_changed
commit next h = record h {
  state = next;
  emitted = if snapshot_changed h.state next then h.emitted + 1 else h.emitted;
}

no_donor : HubState → HubState
no_donor s = record s { donor = false; donor_until = 0 }

-- The state after `AccountStatus` answered.
account_state : Cycle → HubState → HubState
unfolding no_donor
account_state c next = elim c.account [
  | ok status ↦ elim status.donor_until [
    | none ↦ record (no_donor next) { donor = status.donor }
    | some until ↦
        if status.donor && ltb c.now until
        then record next { donor = true; donor_until = until }
        else no_donor next
  ]
  | err credentials ↦ no_donor next
  | err _ ↦ record (no_donor next) { accounts_enabled = false }
]

no_promotions : HubState → HubState
no_promotions s = record s { promotions = []; promotion_live = false }

-- What a cycle has come to: stale at a gate, or a state to commit.
pub data Progress : Type 0 where
  stale : HubError → List Call → Progress
  reached : HubState → List Call → Progress

gated : Option HubError → List Call → (List Call → Progress) → Progress
gated none calls next = next calls
gated (some e) calls next = stale e calls

-- Delivery: the state when the delivered creatives keep or take the slot.
deliver : Cycle → HubState → List Call → Progress
unfolding gated no_promotions
deliver c next calls = gated c.promotions_gate (promotions_call ∷ calls) λ calls'.
    elim c.promotions [
      | ok promotions ↦
          reached (record next { promotions = promotions; promotion_live = true }) calls'
      | err e ↦ reached (no_promotions next) calls'
    ]

-- The recovery of a hidden slot through the availability probe.
probe : Cycle → HubState → List Call → Progress
unfolding gated deliver
probe c next calls = gated c.availability_gate (availability_call ∷ calls) λ calls'.
    elim c.availability [
      | err e ↦ reached (record next { promotions = [] }) calls'
      | ok false ↦ reached (record next { promotions = [] }) calls'
      | ok true ↦ deliver c next calls'
    ]

pub promotion_stage : Bool → Cycle → HubState → List Call → Progress
unfolding deliver probe no_promotions
promotion_stage ads c next calls =
    if ads && (not next.donor && next.promotion_live)
    then deliver c next calls
    else if ads && not next.donor
    then probe c next calls
    else reached (no_promotions next) calls

pub account_stage : PublicSettings → Cycle → HubState → List Call → Progress
unfolding gated no_donor
account_stage s c next calls =
    if s.accounts_enabled
    then gated c.account_gate (account_call ∷ calls)
        (λ calls'. promotion_stage s.ads_enabled c (account_state c next) calls')
    else promotion_stage s.ads_enabled c (no_donor next) calls

links_state : Cycle → HubState → HubState
links_state c next = elim c.links [
  | ok links ↦ record next { links = links }
  | err e ↦ record next { links = [] }
]

pub settings_stage : PublicSettings → Cycle → HubState → List Call → Progress
unfolding gated links_state
settings_stage s c next calls =
    let next' = record next {
      accounts_enabled = s.accounts_enabled;
      ads_enabled = s.ads_enabled;
    } in
    gated c.links_gate (links_call ∷ calls) λ calls'. account_stage s c (links_state c next') calls'

settings_failed : HubState → HubState
unfolding no_donor no_promotions
settings_failed s = record (no_promotions (no_donor s)) {
  accounts_enabled = false;
  ads_enabled = false;
}

unfoldable pub cycle_progress : Cycle → HubState → List Call → Progress
unfolding gated settings_failed
cycle_progress c state calls = gated c.settings_gate (settings_call ∷ calls) λ calls'.
    elim c.settings [
      | err e ↦ reached (settings_failed state) calls'
      | ok s ↦ settings_stage s c state calls'
    ]

finish : Progress → Hub → Hub
unfolding commit
finish (stale e calls) h = record h { calls = calls }
finish (reached next calls) h = commit next (record h { calls = calls })

-- `refresh` with a context that is not yet done.
unfoldable pub refresh : String → Cycle → Hub → Hub
unfolding note_settings finish
refresh key c h = let h' = (note_settings key h).0 in finish (cycle_progress c h'.state h'.calls) h'

-- `expireDonor` at a time.
unfoldable pub expire_donor : ℕ → Hub → Hub
unfolding no_donor
expire_donor now h =
    if h.state.donor && (not (h.state.donor_until == 0) && leb h.state.donor_until now)
    then record h { state = no_donor h.state; emitted = h.emitted + 1 }
    else h

-- `donorDelay` at a time.
unfoldable pub donor_delay : ℕ → Hub → Option ℕ
donor_delay now h =
    if not h.state.donor || h.state.donor_until == 0
    then none
    else if leb h.state.donor_until now
    then none
    else some (h.state.donor_until - now)
