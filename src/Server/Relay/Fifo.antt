-- ===== src/Server/Relay/Fifo.antt =====
-- The order in which server.rs sends the packets of its tasks.
use coap_server_rs.Base.{
  ℕ, ◌≤◌, ◌<◌, true, none, some, List, [], ◌∷◌, ◌++◌, length, length-append, ltb, ltb_lt, nat_beq,
  nat_beq_iff, if◌then◌else◌, ◌≡◌, refl, sym, ap, ◌∙◌, inl, inr, Bool-cases, arith,
}
use mathlib.Core.List.{append-nil}
use mathlib.Core.Path.{subst}
use coap_server_rs.Transport.{FramedItem}
use coap_server_rs.Server.Relay.{
  System, relay_capacity, set, idle_system, spawn_task, relay, relay_next, take_packet, take_from,
  Reachable, bound, received, relayed, taken,
}

pub same_number : (i j : ℕ) → nat_beq i j ≡ true → i ≡ j
same_number i j h = (nat_beq_iff i j).1 h

module _ {Item : Type 0} where
  -- The items of a task, in their order.
  abbrev pub of_task : ℕ → List (ℕ × Item) → List Item
  of_task i [] = []
  of_task i ((j, item) ∷ items) =
      let rest = of_task i items in if nat_beq j i then item ∷ rest else rest

  of_task-append :
      (i : ℕ) (xs ys : List (ℕ × Item)) → of_task i (xs ++ ys) ≡ of_task i xs ++ of_task i ys
  of_task-append i [] ys = refl
  of_task-append i ((j, item) ∷ xs) ys = elim (Bool-cases (nat_beq j i)) [
    | inl y ↦ rw y (ap (λ l. item ∷ l) (of_task-append i xs ys))
    | inr n ↦ rw n (of_task-append i xs ys)
  ]

  -- What has been sent of a task, then what is on the channel, then what it has left, is what its
  -- handler answered; the channel is within its capacity; and a task that is not there has nothing.
  pub record IsFifo (s : System Item) : Type 0 where
    pub ordered : (i : ℕ) → (of_task i s.sent ++ of_task i s.channel) ++ s.tasks i ≡ s.streams i
    pub bounded : length s.channel ≤ relay_capacity
    pub unspawned : (i : ℕ) → s.spawned ≤ i → (s.streams i ≡ []) × (s.tasks i ≡ [])

  append-empty : (xs ys : List Item) → xs ++ ys ≡ [] → xs ≡ []
  append-empty [] ys h = refl
  append-empty (x ∷ xs) ys h = absurd cc

  move_over :
      (a b : List Item) (x : Item) (c : List Item) → (a ++ (b ++ x ∷ [])) ++ c ≡ (a ++ b) ++ x ∷ c
  move_over [] [] x c = refl
  move_over [] (y ∷ b) x c = ap (λ l. y ∷ l) (move_over [] b x c)
  move_over (y ∷ a) b x c = ap (λ l. y ∷ l) (move_over a b x c)

  append_last : (a : List Item) (x : Item) (b : List Item) → (a ++ x ∷ []) ++ b ≡ a ++ x ∷ b
  append_last [] x b = refl
  append_last (y ∷ a) x b = ap (λ l. y ∷ l) (append_last a x b)

  idle_system-IsFifo : IsFifo idle_system
  idle_system-IsFifo = record {
    ordered = λ i. refl;
    bounded = omega arith;
    unspawned = λ i h. (refl, refl);
  }

  spawn_task-IsFifo :
      (stream : List Item) (s : System Item) → IsFifo s → IsFifo (spawn_task stream s)
  unfolding spawn_task
  spawn_task-IsFifo stream s h = record {
    ordered = λ i. elim (Bool-cases (nat_beq s.spawned i)) [
      | inl y ↦
          let before = h.unspawned i (rw (same_number s.spawned i y) (omega arith)) in
          let nothing = append-empty _ (s.tasks i) (h.ordered i ∙ before.0) in rw (y, nothing) refl
      | inr n ↦ rw n (h.ordered i)
    ];
    bounded = h.bounded;
    unspawned = λ i k. elim (Bool-cases (nat_beq s.spawned i)) [
      | inl y ↦ absurd (let same = same_number s.spawned i y in omega arith)
      | inr n ↦ rw n (h.unspawned i (omega arith))
    ];
  }

  -- A task that can send has a packet left, and the channel has room.
  pub relay_cases :
      (i : ℕ) (s t : System Item)
      → relay i s ≡ some t
      → (item : Item) × (rest : List Item) × (s.tasks i ≡ item ∷ rest)
        × (length s.channel < relay_capacity)
        × (record s { tasks = set s.tasks i rest; channel = s.channel ++ (i, item) ∷ [] } ≡ t)
  unfolding relay
  relay_cases i s t h = elim (Bool-cases (ltb (length s.channel) relay_capacity)) [
    | inr n ↦ absurd (let h' : none ≡ some t = rw n at h in cc)
    | inl y ↦ by_left (s.tasks i) refl y
  ]
    where
      by_left :
          (left : List Item)
          → s.tasks i ≡ left
          → ltb (length s.channel) relay_capacity ≡ true
          → (item : Item) × (rest : List Item) × (s.tasks i ≡ item ∷ rest)
            × (length s.channel < relay_capacity)
            × (record s { tasks = set s.tasks i rest; channel = s.channel ++ (i, item) ∷ [] } ≡ t)
      by_left [] q y = absurd (let h' : none ≡ some t = rw (y, q) at h in cc)
      by_left (item ∷ rest) q y =
          let h' : relay_next i s (item ∷ rest) ≡ some t = rw (y, q) at h in
          (item, rest, q, ltb_lt (length s.channel) relay_capacity y, cc)

  pub relayed-IsFifo :
      (i : ℕ) (s : System Item) (item : Item) (rest : List Item)
      → s.tasks i ≡ item ∷ rest
      → length s.channel < relay_capacity
      → IsFifo s
      → IsFifo (record s { tasks = set s.tasks i rest; channel = s.channel ++ (i, item) ∷ [] })
  relayed-IsFifo i s item rest q c h = record {
    ordered = λ j. elim (Bool-cases (nat_beq i j)) [
      | inl y ↦
          let same = same_number i j y in
          let next : s.tasks j ≡ item ∷ rest = rw⁻¹ same q in
          rw (y, of_task-append j s.channel ((i, item) ∷ []), y)
            (move_over (of_task j s.sent) (of_task j s.channel) item rest
              ∙ ap (λ l. (of_task j s.sent ++ of_task j s.channel) ++ l) (sym next)
              ∙ h.ordered j)
      | inr n ↦
          rw (n, of_task-append j s.channel ((i, item) ∷ []), n, append-nil (of_task j s.channel))
            (h.ordered j)
    ];
    bounded = rw (length-append s.channel ((i, item) ∷ [])) (omega arith);
    unspawned = λ j k. elim (Bool-cases (nat_beq i j)) [
      | inl y ↦ absurd (
          let same = same_number i j y in
          let gone : s.tasks i ≡ [] = rw same (h.unspawned j k).1 in cc)
      | inr n ↦ rw n (h.unspawned j k)
    ];
  }

  pub take_cases :
      (s t : System Item)
      → take_packet s ≡ some t
      → (j : ℕ) × (item : Item) × (rest : List (ℕ × Item)) × (s.channel ≡ (j, item) ∷ rest)
        × (record s { channel = rest; sent = s.sent ++ (j, item) ∷ [] } ≡ t)
  unfolding take_packet
  take_cases s t h = by_channel s.channel refl h
    where
      by_channel :
          (channel : List (ℕ × Item))
          → s.channel ≡ channel
          → take_from s channel ≡ some t
          → (j : ℕ) × (item : Item) × (rest : List (ℕ × Item)) × (s.channel ≡ (j, item) ∷ rest)
            × (record s { channel = rest; sent = s.sent ++ (j, item) ∷ [] } ≡ t)
      by_channel [] q h = absurd cc
      by_channel ((j, item) ∷ rest) q h = (j, item, rest, q, cc)

  pub taken-IsFifo :
      (s : System Item) (j : ℕ) (item : Item) (rest : List (ℕ × Item))
      → s.channel ≡ (j, item) ∷ rest
      → IsFifo s
      → IsFifo (record s { channel = rest; sent = s.sent ++ (j, item) ∷ [] })
  taken-IsFifo s j item rest q h = record {
    ordered = λ i.
        let before =
          ap (λ l. (of_task i s.sent ++ of_task i l) ++ s.tasks i) (sym q) ∙ h.ordered i in
        elim (Bool-cases (nat_beq j i)) [
          | inl y ↦
              rw (of_task-append i s.sent ((j, item) ∷ []), y)
                (ap (λ l. l ++ s.tasks i) (append_last (of_task i s.sent) item (of_task i rest))
                  ∙ (rw y at before))
          | inr n ↦
              rw (of_task-append i s.sent ((j, item) ∷ []), n, append-nil (of_task i s.sent))
                (rw n at before)
        ];
    bounded = let b : length ((j, item) ∷ rest) ≤ relay_capacity = rw q at h.bounded in omega arith;
    unspawned = h.unspawned;
  }

module _ {Handler Packet Endpoint : Type 0} (handle : Handler → Packet → Endpoint → List Packet)
    (handler : Handler) where
  -- However the requests, their tasks and the loop of the server take turns: of each task the packets
  -- given to the transport are the first of those that its handler answers, followed by those on the
  -- channel and those that it has left; so none is lost, doubled or out of order, and none belongs to
  -- another task. The channel never holds more than 32.
  pub Reachable-IsFifo :
      {s : System (FramedItem Packet Endpoint)} → Reachable handle handler s → IsFifo s
  Reachable-IsFifo bound = idle_system-IsFifo
  Reachable-IsFifo (received s request r) = spawn_task-IsFifo _ s (Reachable-IsFifo r)
  Reachable-IsFifo (relayed s t i e r) =
      let before = Reachable-IsFifo r in
      let (item, rest, q, c, same) = relay_cases i s t e in
      subst IsFifo same (relayed-IsFifo i s item rest q c before)
  Reachable-IsFifo (taken s t e r) =
      let before = Reachable-IsFifo r in
      let (j, item, rest, q, same) = take_cases s t e in
      subst IsFifo same (taken-IsFifo s j item rest q before)
