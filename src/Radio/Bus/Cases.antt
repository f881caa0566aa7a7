-- ===== src/Radio/Bus/Cases.antt =====
-- What a call of `broadcast` or `poll` can do, and what `broadcast` answers.
use project_mycelium.Common.{
  ℕ, ◌≤◌, ◌≡◌, inl, inr, true, false, leb, ltb, String, [], none, some, Option-cases, Bool-cases,
  if◌then◌else◌, arith,
}
use text.Mathlib.Text.{◌==◌ as str_eq}
use text.Mathlib.TextEquality.{eq_iff}
use project_mycelium.Common.Float.{Float}
use project_mycelium.Common.Word.{sat_add64}
use project_mycelium.Common.Store.{lookup, modify, lookup-modify, lookup-insert_self}
use project_mycelium.Radio.Types.{TxEvent, RadioChannel}
use project_mycelium.Radio.Bus.{
  RadioBus, NodeState, schedule, broadcast, poll, is_send_complete, new_node, register_node,
}

pub poll_cases {ℓ} :
    {F : Type 0} (P : RadioBus F → Type ℓ) (bus : RadioBus F) (id : String)
    → P bus
    → P (record bus { nodes = modify id (λ n. record n { inbox = [] }) bus.nodes })
    → P (poll bus id).0
unfolding poll
poll_cases P bus id same drained = elim (Option-cases (lookup id bus.nodes)) [
  | inl e ↦ rw (e, poll) same
  | inr (n, e) ↦ rw (e, poll) drained
]

module _ (fl : Float) where
  open fl use {F}

  pub broadcast_cases {ℓ} :
      (P : RadioBus F → Type ℓ) (bus : RadioBus F) (tx : TxEvent F)
      → P bus
      → ((sender : NodeState F)
          → lookup tx.node_id bus.nodes ≡ some sender
          → sender.tx_busy_until_ms ≤ tx.timestamp_ms
          → P (schedule fl bus sender tx))
      → P (broadcast fl bus tx).0
  unfolding broadcast
  broadcast_cases P bus tx same sent = elim (Option-cases (lookup tx.node_id bus.nodes)) [
    | inl e ↦ rw (e, broadcast) same
    | inr (sender, e) ↦ elim (Bool-cases (ltb tx.timestamp_ms sender.tx_busy_until_ms)) [
      | inl busy ↦ rw (e, broadcast, busy) same
      | inr idle ↦ rw (e, broadcast, idle) (sent sender e (ground arith))
    ]
  ]

  -- A broadcast is accepted exactly when the sender is registered and not busy at the start time;
  -- a refused one changes nothing.
  pub broadcast_answers :
      (bus : RadioBus F) (tx : TxEvent F)
      → ((sender : NodeState F)
          → lookup tx.node_id bus.nodes ≡ some sender
          → (broadcast fl bus tx).1 ≡ leb sender.tx_busy_until_ms tx.timestamp_ms)
        × (lookup tx.node_id bus.nodes ≡ none → (broadcast fl bus tx).1 ≡ false)
        × ((broadcast fl bus tx).1 ≡ false → (broadcast fl bus tx).0 ≡ bus)
  unfolding broadcast
  broadcast_answers bus tx = (λ sender e. ground arith, λ e. ground arith, λ e. ground arith)

  -- After an accepted broadcast the sender reports its completion exactly from the end of the
  -- transmission on, and every other node answers as before.
  pub send_complete_after_broadcast :
      (bus : RadioBus F) (tx : TxEvent F) (id : String) (now_ms : ℕ)
      → (broadcast fl bus tx).1 ≡ true
      → is_send_complete (broadcast fl bus tx).0 id now_ms ≡ (
          if str_eq tx.node_id id
          then leb (sat_add64 tx.timestamp_ms tx.airtime_ms) now_ms
          else is_send_complete bus id now_ms)
  unfolding broadcast schedule is_send_complete
  send_complete_after_broadcast bus tx id now e = ground (
    arith,
    eq_iff tx.node_id id,
    lookup-modify tx.node_id id
        (λ (node : NodeState F). record node {
          tx_busy_until_ms = sat_add64 tx.timestamp_ms tx.airtime_ms;
        })
        bus.nodes,
  )

  -- Registering a node again forgets that it is transmitting: its next broadcast is accepted at any
  -- time, also while an earlier transmission of the node is still on the air.
  pub broadcast-register :
      (bus : RadioBus F) (tx : TxEvent F) (at : F × F) (power : F) (c : RadioChannel F)
      → (broadcast fl (register_node bus tx.node_id at power c) tx).1 ≡ true
  unfolding broadcast register_node
  broadcast-register bus tx at power c = ground (
    arith,
    lookup-insert_self tx.node_id (new_node at power c bus.config.dio2_as_rf_switch) bus.nodes,
  )
