-- ===== src/Server/Relay/Drain.antt =====
-- How the tasks and the loop of server.rs come to an end with the packets of their requests.
use coap_server_rs.Base.{
  ℕ, zero, suc, ◌+◌, ◌*◌, ◌≤◌, ◌<◌, none, some, List, [], ◌∷◌, ◌++◌, length, length-append,
  List-cases, ltb, nat_beq, nat_beq_iff, if◌then◌else◌, ◌≡◌, ◌≢◌, refl, sym, ap, ◌∙◌, inl, inr,
  Bool-cases, arith, dec_lt,
}
use mathlib.Core.List.{append-nil}
use mathlib.Core.Path.{subst}
use coap_server_rs.Transport.{FramedItem}
use coap_server_rs.Server.Relay.{
  System, relay_capacity, set, relay, relay_next, take_packet, Reachable,
}
use coap_server_rs.Server.Relay.Fifo.{
  of_task, IsFifo, same_number, relay_cases, take_cases, relayed-IsFifo, taken-IsFifo,
  Reachable-IsFifo,
}

module _ {Item : Type 0} where
  -- Twice the packets that the first n tasks have left.
  abbrev work_left : ℕ → (ℕ → List Item) → ℕ
  work_left zero tasks = 0
  work_left (suc n) tasks = length (tasks n) * 2 + work_left n tasks

  -- The steps until all is sent: two for a packet that a task has left, one for one on the channel.
  abbrev pub work : System Item → ℕ
  work s = work_left s.spawned s.tasks + length s.channel

  -- A number of steps of the tasks and of the loop, with no new request.
  pub data Steps (s : System Item) : ℕ → System Item → Type 0 where
    here : Steps s 0 s
    relays : (n i : ℕ) (t u : System Item) → Steps s n t → relay i t ≡ some u → Steps s (suc n) u
    takes : (n : ℕ) (t u : System Item) → Steps s n t → take_packet t ≡ some u → Steps s (suc n) u

  work_left_above :
      (n i : ℕ) (rest : List Item) (tasks : ℕ → List Item)
      → n ≤ i
      → work_left n (set tasks i rest) ≡ work_left n tasks
  work_left_above zero i rest tasks h = refl
  work_left_above (suc n) i rest tasks h = elim (Bool-cases (nat_beq i n)) [
    | inl y ↦ absurd (let same = same_number i n y in omega arith)
    | inr f ↦ rw (f, work_left_above n i rest tasks (omega arith)) refl
  ]

  work_left_below :
      (n i : ℕ) (item : Item) (rest : List Item) (tasks : ℕ → List Item)
      → i < n
      → tasks i ≡ item ∷ rest
      → 2 + work_left n (set tasks i rest) ≡ work_left n tasks
  work_left_below zero i item rest tasks h q = absurd (omega arith)
  work_left_below (suc n) i item rest tasks h q = elim (Bool-cases (nat_beq i n)) [
    | inl y ↦
        let same = same_number i n y in
        let left : tasks n ≡ item ∷ rest = rw same at q in
        rw (y, left, work_left_above n i rest tasks (omega arith)) (omega arith)
    | inr f ↦
        let other : i ≢ n = λ e. let b = (nat_beq_iff i n).0 e in cc in
        let below = work_left_below n i item rest tasks (omega arith) q in rw f (omega arith)
  ]

  task_is_spawned :
      (i : ℕ) (t : System Item) (item : Item) (rest : List Item)
      → IsFifo t
      → t.tasks i ≡ item ∷ rest
      → i < t.spawned
  task_is_spawned i t item rest h q = elim (dec_lt i t.spawned) [
    | yes l ↦ l
    | no n ↦ absurd (let gone = (h.unspawned i (omega arith)).1 in cc)
  ]

  relay-work :
      (i : ℕ) (t u : System Item)
      → IsFifo t
      → relay i t ≡ some u
      → IsFifo u × (1 + work u ≡ work t) × (u.streams ≡ t.streams)
  relay-work i t u h e =
      let (item, rest, q, c, same) = relay_cases i t u e in
      let below =
        work_left_below t.spawned i item rest t.tasks (task_is_spawned i t item rest h q) q in
      let longer = length-append t.channel ((i, item) ∷ []) in
      (
        subst IsFifo same (relayed-IsFifo i t item rest q c h),
        subst (λ v. 1 + work v ≡ work t) same (rw longer (omega arith)),
        ap (λ v. v.streams) (sym same),
      )

  take-work :
      (t u : System Item)
      → IsFifo t
      → take_packet t ≡ some u
      → IsFifo u × (1 + work u ≡ work t) × (u.streams ≡ t.streams)
  take-work t u h e =
      let (j, item, rest, q, same) = take_cases t u e in
      (
        subst IsFifo same (taken-IsFifo t j item rest q h),
        subst (λ v. 1 + work v ≡ work t) same (rw q (omega arith)),
        ap (λ v. v.streams) (sym same),
      )

  Steps-work :
      {s : System Item} {n : ℕ} {t : System Item}
      → IsFifo s
      → Steps s n t
      → IsFifo t × (n + work t ≡ work s) × (t.streams ≡ s.streams)
  Steps-work h here = (h, omega arith, refl)
  Steps-work h (relays n i t u r e) =
      let before = Steps-work h r in
      let step = relay-work i t u before.0 e in (step.0, omega arith, step.2 ∙ before.2)
  Steps-work h (takes n t u r e) =
      let before = Steps-work h r in
      let step = take-work t u before.0 e in (step.0, omega arith, step.2 ∙ before.2)

  -- A task among the first n that has a packet left, while there is work left for them.
  some_task :
      (n : ℕ) (tasks : ℕ → List Item)
      → 1 ≤ work_left n tasks
      → (i : ℕ) × (item : Item) × (rest : List Item) × (tasks i ≡ item ∷ rest)
  some_task zero tasks h = absurd (omega arith)
  some_task (suc n) tasks h = elim (List-cases (tasks n)) [
    | inl q ↦
        let h' : 1 ≤ length {A = Item} [] * 2 + work_left n tasks = rw q at h in
        some_task n tasks (omega arith)
    | inr (item, rest, q) ↦ (n, item, rest, q)
  ]

  -- While there is work left some step is possible.
  next_step :
      {s : System Item} (n : ℕ) (t : System Item)
      → 1 ≤ work t
      → Steps s n t
      → (u : System Item) × Steps s (suc n) u
  unfolding relay take_packet
  next_step n t h r = elim (List-cases t.channel) [
    | inr ((j, item), rest, q) ↦
        let u : System Item = record t { channel = rest; sent = t.sent ++ (j, item) ∷ [] } in
        (u, takes n t u r (rw (take_packet, q) refl))
    | inl q ↦
        let h' : 1 ≤ work_left t.spawned t.tasks + 0 = rw q at h in
        let (i, item, rest, k) = some_task t.spawned t.tasks (omega arith) in
        let u : System Item = record t {
          tasks = set t.tasks i rest;
          channel = t.channel ++ (i, item) ∷ [];
        } in
        (
          u,
          relays n i t u r (
              ap (λ ch. if ltb (length ch) relay_capacity then relay_next i t (t.tasks i) else none)
                q
              ∙ ap (relay_next i t) k),
        )
  ]

  -- Without work everything is sent.
  all_sent : (t : System Item) → IsFifo t → work t ≡ 0 → (i : ℕ) → of_task i t.sent ≡ t.streams i
  all_sent t h w i = elim (List-cases (t.tasks i)) [
    | inr (item, rest, q) ↦ absurd (
        let below =
          work_left_below t.spawned i item rest t.tasks (task_is_spawned i t item rest h q) q in
        omega arith)
    | inl q ↦ elim (List-cases t.channel) [
      | inr (x, rest, k) ↦
          absurd (
            let w' : work_left t.spawned t.tasks + length (x ∷ rest) ≡ 0 = rw k at w in omega arith)
      | inl k ↦
          let whole = h.ordered i in
          sym (append-nil (of_task i t.sent)) ∙ sym (append-nil _) ∙ (rw (k, q) at whole)
    ]
  ]

module _ {Handler Packet Endpoint : Type 0} (handle : Handler → Packet → Endpoint → List Packet)
    (handler : Handler) where
  -- From every state that the server comes to, if no request comes in any more, the tasks and the
  -- loop can go on until all that the handlers have answered is sent, and only then they stop: each
  -- step takes one from the work that is left, while there is work some step is possible, so that the
  -- full channel never blocks them all; and without work all the packets of every task are sent.
  pub Reachable_drains :
      {s : System (FramedItem Packet Endpoint)} (n : ℕ) (t : System (FramedItem Packet Endpoint))
      → Reachable handle handler s
      → Steps s n t
      → (n + work t ≡ work s)
        × (n < work s → (u : System (FramedItem Packet Endpoint)) × Steps s (suc n) u)
        × (n ≡ work s → (i : ℕ) → of_task i t.sent ≡ s.streams i)
  Reachable_drains n t reached steps =
      let (fifo, w, same) = Steps-work (Reachable-IsFifo handle handler reached) steps in
      (
        w,
        λ l. next_step n t (omega arith) steps,
        λ e i. all_sent t fifo (omega arith) i ∙ ap (λ f. f i) same,
      )
