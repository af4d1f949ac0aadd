-- ===== src/Events.antt =====
-- internal/application/service.go: the journal of events and the connected subscribers (`publish`,
-- `SubscribeEvents`, `Events`), and internal/adapters/httpapi/api.go, `events`: the stream of one client. A
-- publisher appends to the journal in one step and takes the lock to fan out in another, so between them
-- an event is pending. `sent` (what was fanned out), `taken` (what a reader took of its channel) and `from`
-- (how much was sent when it subscribed) are kept for the theorems only.
pub mod Delivery
pub mod Clients
use filelist_streaming_servi.Base.{
  ℕ, zero, suc, ◌+◌, ◌≡◌, Bool, true, false, not, Option, none, some, List, [], ◌∷◌, ◌++◌, String,
  ltb, leb, ◌==◌, ◌||◌, if◌then◌else◌, length, keep, map,
}

pub record JournalEvent : Type 0 where
  pub id : ℕ
  pub kind : String
  pub payload : String

pub record Channel : Type 0 where
  pub number : ℕ
  pub buffer : List JournalEvent
  pub taken : List JournalEvent
  pub from : ℕ

pub record Bus : Type 0 where
  pub journal : List JournalEvent
  pub pending : List JournalEvent
  pub sent : List JournalEvent
  pub subscribers : List Channel
  pub closed : List Channel  -- no longer subscribed; what is buffered can still be read
  pub made : ℕ
  pub stopping : Bool

abbrev pub new_bus : List JournalEvent → Bus
new_bus journal = record {
  journal = journal;
  pending = [];
  sent = [];
  subscribers = [];
  closed = [];
  made = 0;
  stopping = false;
}

abbrev pub buffer_size : ℕ
buffer_size = 32

-- `publish` up to the lock; the journal may refuse the event.
unfoldable pub append_event : Bool → String → String → Bus → Bus
append_event refused kind payload b =
    if b.stopping
    then b
    else if refused
    then b
    else let event : JournalEvent = record {
      id = suc (length b.journal);
      kind = kind;
      payload = payload;
    } in
      record b { journal = b.journal ++ (event ∷ []); pending = b.pending ++ (event ∷ []) }

-- A subscriber whose buffer is full is closed.
unfoldable pub has_room : Channel → Bool
has_room c = ltb (length c.buffer) buffer_size

unfoldable pub push : JournalEvent → Channel → Channel
push event c = record c { buffer = c.buffer ++ (event ∷ []) }

-- `publish` under the lock.
unfoldable pub fan_out : JournalEvent → Bus → Bus
unfolding has_room push
fan_out event b = record b {
  sent = b.sent ++ (event ∷ []);
  subscribers = map (push event) (keep has_room b.subscribers);
  closed = keep (λ c. not (has_room c)) b.subscribers ++ b.closed;
}

unfoldable pub subscribe : Bus → Bus
subscribe b = record b {
  subscribers =
      b.subscribers
      ++ (record { number = b.made; buffer = []; taken = []; from = length b.sent } ∷ []);
  made = suc b.made;
}

-- The cancel function of a subscription.
unfoldable pub unsubscribe : ℕ → Bus → Bus
unsubscribe number b = record b {
  subscribers = keep (λ c. not (c.number == number)) b.subscribers;
  closed = keep (λ c. c.number == number) b.subscribers ++ b.closed;
}

unfoldable pub take_first : Channel → List JournalEvent → Channel
take_first c [] = c
take_first c (e ∷ buffer) = record c { buffer = buffer; taken = c.taken ++ (e ∷ []) }

unfoldable pub take_from : Channel → Channel
unfolding take_first
take_from c = take_first c c.buffer

unfoldable pub take_at : ℕ → Channel → Channel
unfolding take_from
take_at number c = if c.number == number then take_from c else c

-- A reader takes the next event of its channel.
unfoldable pub receive : ℕ → Bus → Bus
unfolding take_at
receive number b = record b {
  subscribers = map (take_at number) b.subscribers;
  closed = map (take_at number) b.closed;
}

unfoldable pub first_events : ℕ → List JournalEvent → List JournalEvent
first_events zero events = []
first_events (suc n) [] = []
first_events (suc n) (e ∷ events) = e ∷ first_events n events

-- `ListEvents`, in the order of the ids.
unfoldable pub list_events : ℕ → ℕ → List JournalEvent → List JournalEvent
unfolding first_events
list_events after limit journal =
    first_events (if ltb limit 1 || ltb 500 limit then 100 else limit)
      (keep (λ e. ltb after e.id) journal)

-- What `events` sends to a client that asks for the events after an id: the replay of the journal as it
-- was then, nothing where the database refuses it, and what it takes from the channel that it subscribes to
-- afterwards.
unfoldable pub client_stream : Bool → ℕ → List JournalEvent → Channel → List JournalEvent
unfolding list_events
client_stream refused after journal c =
    (if refused then [] else list_events after 200 journal) ++ c.taken

pub data Turn : Bus → Bus → Type 0 where
  appends :
      (b : Bus) (refused : Bool) (kind payload : String)
      → Turn b (append_event refused kind payload b)
  fans :
      (b : Bus) (before : List JournalEvent) (event : JournalEvent) (rest : List JournalEvent)
      → b.pending ≡ before ++ (event ∷ rest)
      → Turn b (fan_out event (record b { pending = before ++ rest }))
  subscribes : (b : Bus) → Turn b (subscribe b)
  unsubscribes : (b : Bus) (number : ℕ) → Turn b (unsubscribe number b)
  receives : (b : Bus) (number : ℕ) → Turn b (receive number b)
  stops : (b : Bus) → Turn b (record b { stopping = true })

pub data Arrived : Bus → Type 0 where
  starts : (journal : List JournalEvent) → Arrived (new_bus journal)
  turned : {b c : Bus} → Arrived b → Turn b c → Arrived c
