-- ===== src/Radio/Delivery/Sound.antt =====
-- Why a receiver got a packet: each one that `tick` delivers passed every guard of the code.
use project_mycelium.Common.{
  ℕ, ◌≡◌, true, false, ◌&&◌, ◌≢◌, String, List, [], ◌∷◌, some, any, leb, arith, All, All-append,
  All-map, ◌++◌, Bool-cases, Option-cases, inl, inr,
}
use mathlib.Core.List.{Mem, mem-cons_self, mem-cons_of_mem}
use text.Mathlib.Text.{◌==◌ as str_eq}
use text.Mathlib.TextEquality.{eq_iff}
use project_mycelium.Common.Float.{Float}
use project_mycelium.Common.Store.{lookup}
use project_mycelium.Radio.Types.{RxPacket, channel_eq}
use project_mycelium.Radio.Propagation.{sensitivity}
use project_mycelium.Radio.Overlap.{transmissions_overlap, transmission_end}
use project_mycelium.Radio.Bus.{RadioBus, NodeState, ScheduledTransmission}
use project_mycelium.Radio.Delivery.{
  events, is_completed, can_hear, received, rssi_at, packet, is_jammed, interference_dbm, tick,
}
use project_mycelium.Radio.Delivery.Inbox.{heard, packets, tick_inbox}

all_members {ℓ} : {A : Type ℓ} (xs : List A) → All (λ x. Mem x xs) xs
all_members [] = tt
all_members (x ∷ xs) = (
  mem-cons_self,
  All-map (λ y. Mem y xs) (λ y. Mem y (x ∷ xs)) xs (λ y. mem-cons_of_mem x) (all_members xs),
)

module _ (fl : Float) where
  -- The transmission that a packet comes from, which the bus remembers and has not resolved, and
  -- what let the receiver hear it.
  pub record Heard (bus : RadioBus fl.F) (now : ℕ) (id : String) (r : NodeState fl.F)
      (p : RxPacket fl.F) : Type 0 where
    pub scheduled : ScheduledTransmission fl.F
    pub known : Mem scheduled bus.transmissions
    pub unresolved : scheduled.finalized ≡ false
    pub from_source : p.from_node ≡ scheduled.event.node_id
    pub payload_kept : p.payload ≡ scheduled.event.payload
    pub channel_kept : p.channel ≡ scheduled.event.channel
    pub stamped : p.timestamp_ms ≡ transmission_end scheduled.event
    pub completed : leb (transmission_end scheduled.event) now ≡ true
    pub not_own : id ≢ scheduled.event.node_id
    pub enabled : r.rx_enabled ≡ true
    pub tuned : channel_eq fl r.current_channel scheduled.event.channel ≡ true
    pub half_duplex :
        any
          (λ other. str_eq other.node_id id && transmissions_overlap scheduled.event other)
          (events bus.transmissions)
        ≡ false
    pub strength : rssi_at fl bus.config r scheduled.event ≡ some p.rssi_dbm
    pub finite : fl.is_finite p.rssi_dbm ≡ true
    pub sensitive : fl.lt p.rssi_dbm (sensitivity fl scheduled.event.channel) ≡ false
    pub captured :
        is_jammed fl p.rssi_dbm
          (interference_dbm fl bus.config r scheduled.event (events bus.transmissions))
        ≡ false

  -- The transmissions from one on are among those of the bus.
  abbrev Within : List (ScheduledTransmission fl.F) → RadioBus fl.F → Type 0
  Within ss bus = All (λ s. Mem s bus.transmissions) ss

  completed_end :
      (now : ℕ) (s : ScheduledTransmission fl.F)
      → is_completed now s ≡ true
      → (leb (transmission_end s.event) now ≡ true) × (s.finalized ≡ false)
  unfolding is_completed
  completed_end now s h = (ground arith, ground arith)

  module _ (bus : RadioBus fl.F) (now : ℕ) (id : String) (r : NodeState fl.F) where
    received-Heard :
        (s : ScheduledTransmission fl.F) (p : RxPacket fl.F)
        → Mem s bus.transmissions
        → is_completed now s ≡ true
        → can_hear fl s.event (events bus.transmissions) id r ≡ true
        → received fl bus.config s.event (events bus.transmissions) r ≡ some p
        → Heard bus now id r p
    unfolding can_hear received packet
    received-Heard s p known done hears e =
        let (ended, waiting) = completed_end now s done in
        record {
          scheduled = s;
          known = known;
          unresolved = waiting;
          from_source = ground arith;
          payload_kept = ground arith;
          channel_kept = ground arith;
          stamped = ground arith;
          completed = ended;
          not_own = ground (arith, eq_iff id s.event.node_id);
          enabled = ground arith;
          tuned = ground arith;
          half_duplex = ground arith;
          strength = ground arith;
          finite = ground arith;
          sensitive = ground arith;
          captured = ground arith;
        }

    heard-Heard :
        (s : ScheduledTransmission fl.F)
        → Mem s bus.transmissions
        → is_completed now s ≡ true
        → All (Heard bus now id r) (heard fl bus.config (events bus.transmissions) id r s.event)
    unfolding heard
    heard-Heard s known done =
        elim (Bool-cases (can_hear fl s.event (events bus.transmissions) id r)) [
          | inl hears ↦
              elim (Option-cases (received fl bus.config s.event (events bus.transmissions) r)) [
                | inl e ↦ rw (hears, e) tt
                | inr (p, e) ↦ rw (hears, e) (received-Heard s p known done hears e, tt)
              ]
          | inr deaf ↦ rw deaf tt
        ]

    packets-Heard :
        (ss : List (ScheduledTransmission fl.F))
        → Within ss bus
        → All (Heard bus now id r) (packets fl bus.config now (events bus.transmissions) id r ss)
    unfolding packets
    packets-Heard [] known = tt
    packets-Heard (s ∷ ss) (here, known) = elim (Bool-cases (is_completed now s)) [
      | inl done ↦ rw done (
          All-append _ (heard fl bus.config (events bus.transmissions) id r s.event) _
            (heard-Heard s here done) (packets-Heard ss known))
      | inr waits ↦ rw waits (packets-Heard ss known)
    ]

  -- A tick puts new packets behind the inbox of a registered node and changes nothing else of the
  -- node. Each of the new packets comes from a transmission of another node that the bus remembers
  -- and that no earlier tick has resolved, with its payload, its channel and its end as the time. It
  -- is complete, on the receiver's channel, while reception was enabled and no transmission of the
  -- receiver overlapped it; its strength is the link budget's, finite, not below the sensitivity,
  -- and more than 6 dB above the interference.
  pub packets_sound :
      (bus : RadioBus fl.F) (now_ms : ℕ) (id : String) (r : NodeState fl.F)
      → lookup id bus.nodes ≡ some r
      → (ps : List (RxPacket fl.F)) × (lookup id (tick fl bus now_ms).nodes
          ≡ some (record r { inbox = r.inbox ++ ps }))
        × All (Heard bus now_ms id r) ps
  packets_sound bus now id r h = (
    packets fl bus.config now (events bus.transmissions) id r bus.transmissions,
    tick_inbox fl bus now id r h,
    packets-Heard bus now id r bus.transmissions (all_members bus.transmissions),
  )
