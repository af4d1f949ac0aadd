-- ===== src/Tests/Streams.antt =====
-- The theorems on the events at a journal of one event, a subscriber, and a second event that it takes.
use filelist_streaming_servi.Base.{
  ℕ, ◌+◌, ◌-◌, ◌≤◌, ◌≡◌, ◌↔◌, refl, false, List, [], ◌∷◌, All, arith, length, In, ◌++◌, inl, ◌⊎◌,
}
use filelist_streaming_servi.Events.{
  JournalEvent, Channel, Bus, new_bus, append_event, fan_out, subscribe, receive, Arrived, starts,
  turned, appends, fans, subscribes, receives, client_stream,
}
use filelist_streaming_servi.Events.Delivery.{drop, IsServed, WasServed, Arrived-delivered}
use filelist_streaming_servi.Events.Clients.{client_stream_iff, Numbered}

abbrev event_at : ℕ → JournalEvent
event_at id = record { id = id; kind = "job.updated"; payload = "{}" }

abbrev old_journal : List JournalEvent
old_journal = event_at 1 ∷ []

abbrev joined : Bus
joined = subscribe (new_bus old_journal)

abbrev appended : Bus
appended = append_event false "job.updated" "{}" joined

abbrev fanned : Bus
fanned = fan_out (event_at 2) (record appended { pending = [] })

abbrev read : Bus
read = receive 0 fanned

arrived : Arrived read
unfolding append_event subscribe
arrived =
    turned
      (turned
        (turned (turned (starts old_journal) (subscribes (new_bus old_journal)))
          (appends joined false "job.updated" "{}"))
        (fans appended [] (event_at 2) [] refl))
      (receives fanned 0)

Arrived-delivered_example :
    All (IsServed read.sent) read.subscribers × All (WasServed read.sent) read.closed
Arrived-delivered_example = Arrived-delivered arrived

abbrev reader : Channel
reader = record { number = 0; buffer = []; taken = event_at 2 ∷ []; from = 0 }

subscribed : In reader read.subscribers
unfolding receive fan_out append_event subscribe
subscribed = inl refl

grown : read.journal ≡ old_journal ++ (event_at 2 ∷ [])
unfolding receive fan_out append_event subscribe
grown = refl

numbered : Numbered 0 read.journal
unfolding receive fan_out append_event subscribe
numbered = (refl, (refl, tt))

sent : read.sent ≡ drop 1 read.journal
unfolding receive fan_out append_event subscribe drop
sent = refl

begun : 1 ≤ length read.journal
unfolding receive fan_out append_event subscribe
begun = omega arith

client_stream_iff_example : (client_stream false 0 old_journal reader ≡ drop 0 read.journal) ↔ (
    ((false ≡ false) ⊎ (0 ≡ length old_journal))
    × ((length old_journal - 0 ≤ 200) × (1 + reader.from ≡ length old_journal)))
client_stream_iff_example =
    client_stream_iff read reader 0 1 old_journal (event_at 2 ∷ []) false arrived subscribed refl
      grown numbered sent (omega arith) (omega arith) begun
