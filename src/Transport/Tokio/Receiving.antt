-- ===== src/Transport/Tokio/Receiving.antt =====
-- The receiving side of the tokio transport: the stream over a queue of the socket's answers.
use coap_server_rs.Base.{
  ℕ, zero, suc, Bool, true, false, Option, none, some, List, [], ◌∷◌, ◌++◌, take, Result, ok, err,
  returned, panicked, Text, ◌≡◌, refl, ap, ◌∙◌, ◌⊎◌, inl, inr, Result-cases, if◌then◌else◌,
}
use coap_server_rs.Transport.{
  Poll, ready, pending, PacketCodec, ErrorOf, io_error, malformed_packet, FramedItem,
  FramedReadError,
}
use coap_server_rs.Transport.Tokio.{decode, codec}
use coap_server_rs.Transport.Tokio.Framed.{
  UdpFramed, decoded, decode_from, stopped, exhausted, decode_buffer, filled, poll_next, new_framed,
  StreamPoll,
}

-- `Decoder::decode_eof` of the library: a frame and an error of `decode` are passed on, and with
-- nothing left in the buffer there is no frame.
pub record IsDecodeEof (c : PacketCodec)
    (decode_eof : Text → Text × Result (Option c.Packet) (ErrorOf c)) : Type 0 where
  pub frame :
      (buf rest : Text) (packet : c.Packet)
      → decode c buf ≡ (rest, ok (some packet))
      → decode_eof buf ≡ (rest, ok (some packet))
  pub error :
      (buf rest : Text) (e : ErrorOf c)
      → decode c buf ≡ (rest, err e)
      → decode_eof buf ≡ (rest, err e)
  pub nothing_left : (buf : Text) → decode c buf ≡ ([], ok none) → decode_eof buf ≡ ([], ok none)

-- What the socket gives in one poll, and an item of the stream.
abbrev pub Received : PacketCodec → Type 0 → Type 0
Received c Endpoint = Result (Text × Endpoint) c.IoErr

abbrev pub Frame : PacketCodec → Type 0 → Type 0
Frame c Endpoint = Result (FramedItem c.Packet Endpoint) (FramedReadError (ErrorOf c) Endpoint)

module _ (c : PacketCodec) {Endpoint : Type 0} where
  open c use {Packet, MessageError, from_bytes}

  abbrev frame_of : Result Packet MessageError → Endpoint → Frame c Endpoint
  frame_of (ok packet) addr = ok (packet, addr)
  frame_of (err e) addr = err (malformed_packet e, some addr)

  -- What the stream should give: nothing for an empty datagram, and one item for any other and for
  -- an error of the socket.
  abbrev pub frames : List (Received c Endpoint) → List (Frame c Endpoint)
  frames [] = []
  frames (ok ([], addr) ∷ later) = frames later
  frames (ok (b ∷ bytes, addr) ∷ later) = frame_of (from_bytes (b ∷ bytes)) addr ∷ frames later
  frames (err e ∷ later) = err (io_error (some e), none) ∷ frames later

  abbrev next_of : List (Frame c Endpoint) → Poll (Frame c Endpoint)
  next_of [] = pending
  next_of (f ∷ fs) = ready f

  abbrev rest_of : List (Frame c Endpoint) → List (Frame c Endpoint)
  rest_of [] = []
  rest_of (f ∷ fs) = fs

  -- The datagram in the read buffer, if there is one.
  abbrev in_buffer : Bool → Text → Option Endpoint → List (Received c Endpoint)
  in_buffer true rd (some addr) = ok (rd, addr) ∷ []
  in_buffer _ rd addr = []

  abbrev held : UdpFramed Endpoint → List (Received c Endpoint)
  held self = in_buffer self.is_readable self.rd self.current_addr

  abbrev IsSound : UdpFramed Endpoint → Type 0
  IsSound self =
      ((self.is_readable ≡ false) × (self.rd ≡ []))
      ⊎ ((addr : Endpoint) × (self.is_readable ≡ true) × (self.current_addr ≡ some addr))

module _ (c : PacketCodec) {Endpoint : Type 0}
    (decode_eof : Text → Text × Result (Option c.Packet) (ErrorOf c)) where
  -- The items that n polls give, until one is pending; each poll finds what the ones before it left.
  unfoldable pub poll_times :
      ℕ → UdpFramed Endpoint → List (Received c Endpoint) → List (Frame c Endpoint)
  unfolding poll_next codec
  poll_times zero self answers = []
  poll_times (suc n) self answers =
      let t = poll_next (codec c decode_eof) self answers in
      elim t.item [
        | returned (ready f) ↦ f ∷ poll_times n t.state t.later
        | returned pending ↦ []
        | panicked ↦ []
      ]

module _ (c : PacketCodec) {Endpoint : Type 0}
    (decode_eof : Text → Text × Result (Option c.Packet) (ErrorOf c))
    (lawful : IsDecodeEof c decode_eof) where
  open c use {Packet, MessageError, from_bytes}

  -- The read buffer holds no item, and is used up; or it gives its item.
  abbrev Exhausts : UdpFramed Endpoint → Type 0
  Exhausts self =
      (s : UdpFramed Endpoint) × (decode_buffer (codec c decode_eof) self ≡ exhausted s)
      × (s.rd ≡ [])
      × (s.is_readable ≡ false)
      × ((l : List (Received c Endpoint)) → frames c (held c self ++ l) ≡ frames c l)

  abbrev Gives : UdpFramed Endpoint → Type 0
  Gives self =
      (s : UdpFramed Endpoint) × (f : Frame c Endpoint) × (decode_buffer (codec c decode_eof) self
        ≡ stopped s f)
      × IsSound c s
      × ((l : List (Received c Endpoint)) → frames c (held c self ++ l) ≡ f ∷ frames c l)
      × ((l : List (Received c Endpoint)) → frames c (held c s ++ l) ≡ frames c l)

  read :
      (self : UdpFramed Endpoint) (addr : Endpoint) (rd : Text)
      → self.is_readable ≡ true
      → self.current_addr ≡ some addr
      → self.rd ≡ rd
      → decode_buffer (codec c decode_eof) self
        ≡ decoded (codec c decode_eof) self addr (decode_eof rd)
  unfolding decode_buffer codec
  read self addr rd r a d =
      let k = codec c decode_eof in
      ap (λ b. if b then decode_from k self self.current_addr else exhausted self) r
      ∙ ap (decode_from k self) a
      ∙ ap (λ buf. decoded k self addr (decode_eof buf)) d

  decode_readable :
      (self : UdpFramed Endpoint) (addr : Endpoint) (rd : Text)
      → self.is_readable ≡ true
      → self.current_addr ≡ some addr
      → self.rd ≡ rd
      → Exhausts self ⊎ Gives self
  unfolding decode
  decode_readable self addr [] r a d =
      let s : UdpFramed Endpoint = record self { rd = []; is_readable = false } in
      inl (
        s,
        read self addr _ r a d
            ∙ ap (decoded (codec c decode_eof) self addr) (lawful.nothing_left [] refl),
        refl,
        refl,
        λ l. rw (r, a, d) refl,
      )
  decode_readable self addr (b ∷ bytes) r a d =
      let s : UdpFramed Endpoint = record self { rd = [] } in
      elim (Result-cases (from_bytes (b ∷ bytes))) [
        | inl (p, q) ↦ inr (
          s,
          ok (p, addr),
          read self addr _ r a d
              ∙ ap (decoded (codec c decode_eof) self addr)
                  (lawful.frame (b ∷ bytes) [] p (rw q refl)),
          inr (addr, r, a),
          λ l. rw (r, a, d, q) refl,
          λ l. rw (r, a) refl,
        )
        | inr (e, q) ↦ inr (
          s,
          err (malformed_packet e, some addr),
          read self addr _ r a d
              ∙ ap (decoded (codec c decode_eof) self addr)
                  (lawful.error (b ∷ bytes) [] (malformed_packet e) (rw q refl)),
          inr (addr, r, a),
          λ l. rw (r, a, d, q) refl,
          λ l. rw (r, a) refl,
        )
      ]

  decode_buffer_cases : (self : UdpFramed Endpoint) → IsSound c self → Exhausts self ⊎ Gives self
  unfolding decode_buffer
  decode_buffer_cases self (inl (r, e)) = inl (self, rw r refl, e, r, λ l. rw r refl)
  decode_buffer_cases self (inr (addr, r, a)) = decode_readable self addr self.rd r a refl

  abbrev Next :
      UdpFramed Endpoint
      → List (Received c Endpoint)
      → StreamPoll Packet Endpoint c.IoErr (ErrorOf c)
      → Type 0
  Next self answers t =
      let due = frames c (held c self ++ answers) in
      IsSound c t.state
      × (t.item ≡ returned (next_of c due))
      × (frames c (held c t.state ++ t.later) ≡ rest_of c due)

  poll_of_buffer :
      (self : UdpFramed Endpoint) (answers : List (Received c Endpoint))
      → Gives self
      → Next self answers (poll_next (codec c decode_eof) self answers)
  unfolding poll_next
  poll_of_buffer self [] (s, f, d, sound, k, m) = rw (poll_next, d, k []) (sound, refl, m [])
  poll_of_buffer self (ok a ∷ later) (s, f, d, sound, k, m) =
      rw (poll_next, d, k (ok a ∷ later)) (sound, refl, m (ok a ∷ later))
  poll_of_buffer self (err a ∷ later) (s, f, d, sound, k, m) =
      rw (poll_next, d, k (err a ∷ later)) (sound, refl, m (err a ∷ later))

  -- A poll of the stream gives the next of the items that are due, and leaves the others.
  poll_next-Next :
      (answers : List (Received c Endpoint)) (self : UdpFramed Endpoint)
      → IsSound c self
      → Next self answers (poll_next (codec c decode_eof) self answers)
  unfolding poll_next codec
  poll_next-Next [] self h = elim (decode_buffer_cases self h) [
    | inr g ↦ poll_of_buffer self [] g
    | inl (s, d, e, r, k) ↦ rw (poll_next, d, k []) (inl (r, e), refl, rw r refl)
  ]
  poll_next-Next (err e ∷ later) self h = elim (decode_buffer_cases self h) [
    | inr g ↦ poll_of_buffer self (err e ∷ later) g
    | inl (s, d, x, r, k) ↦ rw (poll_next, d, k (err e ∷ later)) (inl (r, x), refl, rw r refl)
  ]
  poll_next-Next (ok (datagram, addr) ∷ later) self h = elim (decode_buffer_cases self h) [
    | inr g ↦ poll_of_buffer self (ok (datagram, addr) ∷ later) g
    | inl (s, d, x, r, k) ↦
        let next =
          poll_next-Next later (filled (codec c decode_eof) s datagram addr)
            (inr (addr, refl, refl)) in
        let q = ap (λ buf. frames c (ok (buf ++ datagram, addr) ∷ later)) x in
        rw (poll_next, d, k (ok (datagram, addr) ∷ later))
          (next.0, next.1 ∙ ap (λ due. returned (next_of c due)) q, next.2 ∙ ap (rest_of c) q)
  ]

  poll_times_step :
      (n : ℕ) (self : UdpFramed Endpoint) (answers : List (Received c Endpoint))
      (due : List (Frame c Endpoint))
      → let t = poll_next (codec c decode_eof) self answers in
        Next self answers t
        → frames c (held c self ++ answers) ≡ due
        → poll_times c decode_eof n t.state t.later ≡ take n (frames c (held c t.state ++ t.later))
        → poll_times c decode_eof (suc n) self answers ≡ take (suc n) due
  unfolding poll_times
  poll_times_step n self answers [] next q rest =
      rw (poll_times, next.1 ∙ ap (λ due. returned (next_of c due)) q) refl
  poll_times_step n self answers (f ∷ fs) next q rest =
      rw (poll_times, next.1 ∙ ap (λ due. returned (next_of c due)) q)
        (ap (λ l. f ∷ l) (rest ∙ ap (take n) (next.2 ∙ ap (rest_of c) q)))

  poll_times_sound :
      (n : ℕ) (self : UdpFramed Endpoint) (answers : List (Received c Endpoint))
      → IsSound c self
      → poll_times c decode_eof n self answers ≡ take n (frames c (held c self ++ answers))
  unfolding poll_times
  poll_times_sound zero self answers h = refl
  poll_times_sound (suc n) self answers h =
      let next = poll_next-Next answers self h in
      let t = poll_next (codec c decode_eof) self answers in
      poll_times_step n self answers _ next refl (poll_times_sound n t.state t.later next.0)

  -- The first n items of a new stream: one for each datagram of the socket that is not empty, the
  -- decoding of exactly that datagram with its sender, also when it cannot be decoded, and one
  -- without a sender for each error of the socket, all in their order; empty datagrams are passed
  -- over, and no item comes before the socket has given what it is for.
  pub poll_times-new_framed :
      (n : ℕ) (unspecified : Endpoint) (answers : List (Received c Endpoint))
      → poll_times c decode_eof n (new_framed unspecified) answers ≡ take n (frames c answers)
  unfolding new_framed
  poll_times-new_framed n unspecified answers =
      poll_times_sound n (new_framed unspecified) answers (inl (refl, refl))
