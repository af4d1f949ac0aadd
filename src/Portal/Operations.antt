-- ===== src/Portal/Operations.antt =====
-- The rest of internal/application/portal/hub.go: the update notice, and the account and click operations behind their gates.
use filelist_streaming_servi.Base.{
  Bool, true, false, ◌&&◌, ◌||◌, Option, none, some, ◌∷◌, String, Result, ok, err, ◌+◌,
  if◌then◌else◌,
}
use filelist_streaming_servi.Portal.{
  Hub, HubError, unavailable, notice_absent, accounts_unavailable, promotions_unavailable, Call,
  click_call, no_donor,
}

-- `RefreshNotice`, given what the upstream fetch answers.
unfoldable pub refresh_notice : Result HubError String → Hub → Hub × Result HubError (Option String)
refresh_notice (ok notice) h = (record h { notice = some notice }, ok (some notice))
refresh_notice (err notice_absent) h = (record h { notice = none }, ok none)
refresh_notice (err e) h = (record h { notice = none }, err e)

is_outage : HubError → Bool
is_outage unavailable = true
is_outage _ = false

-- `observeAccountOutcome` for an error; a success changes nothing.
observe_account_outcome : HubError → Hub → Hub
unfolding is_outage no_donor
observe_account_outcome e h =
    if is_outage e
    then record h {
      state = record (no_donor h.state) { accounts_enabled = false };
      emitted = if h.state.accounts_enabled || h.state.donor then h.emitted + 1 else h.emitted;
    }
    else h

settle {ℓ} : {A : Type ℓ} → Result HubError A → Hub → Hub × Result HubError A
unfolding observe_account_outcome
settle (ok a) h = (h, ok a)
settle (err e) h = (observe_account_outcome e h, err e)

-- `AccountStatus`, `Login`, `Register` and `Me`: one upstream call, given its answer, behind the gate.
unfoldable pub account_operation {ℓ} :
    {A : Type ℓ} → Call → Result HubError A → Hub → Hub × Result HubError A
unfolding settle
account_operation call answer h =
    if h.state.accounts_enabled
    then settle answer (record h { calls = call ∷ h.calls })
    else (h, err accounts_unavailable)

-- `Click`, behind the gate of the promotion slot.
unfoldable pub click : Result HubError String → Hub → Hub × Result HubError String
click answer h =
    if h.state.ads_enabled && h.state.promotion_live
    then (record h { calls = click_call ∷ h.calls }, answer)
    else (h, err promotions_unavailable)
