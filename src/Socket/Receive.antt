-- ===== src/Socket/Receive.antt =====
-- `socket_recv` ends, and on success it has taken exactly the requested number of bytes.
use dcn1003_group.Base.{
  ℕ, zero, suc, ◌+◌, ◌-◌, ◌≤◌, ◌<◌, ◌^◌, ◌≡◌, refl, sym, ap, ◌∙◌, inl, inr, ◌≢◌, [], ◌∷◌, ◌++◌,
  append_assoc, arith, ltb, Bool-cases, Bytes, length, length-append, append_split,
}
use dcn1003_group.Base.Int.{ℤ, pos, negsuc}
use dcn1003_group.Error.{ErrorCode, ErrorInfo}
use dcn1003_group.Platform.{Platform, Stream, IsOpen}
use dcn1003_group.Socket.{to_int, after_recv, recv_loop, socket_recv}
use dcn1003_group.Socket.Send.{to_int_small, IsEnd}

module _ (p : Platform) (s : ℕ) where
  after_recv_ends :
      (loop : ℕ → Bytes → p.Net → ErrorInfo × Bytes × p.Net) (total : ℕ) (buffer : Bytes)
      (r : ℤ × Bytes × p.Net)
      → ((t : ℕ) (b : Bytes) (n : p.Net) → total < t → IsEnd (loop t b n).0)
      → IsEnd (after_recv p s loop total buffer r).0
  unfolding after_recv
  after_recv_ends loop total buffer (pos zero, b, n') h = inr refl
  after_recv_ends loop total buffer (pos (suc k), b, n') h =
      h (total + suc k) (buffer ++ b) n' (omega arith)
  after_recv_ends loop total buffer (negsuc k, b, n') h = inr refl

  recv_loop_ends :
      (fuel len total : ℕ) (buffer : Bytes) (n : p.Net)
      → len - total < fuel
      → IsEnd (recv_loop p s fuel len total buffer n).0
  unfolding recv_loop
  recv_loop_ends zero len total buffer n h = elim h [ ]
  recv_loop_ends (suc fuel) len total buffer n h = elim (Bool-cases (ltb total len)) [
    | inr done ↦ rw done (inl refl)
    | inl more ↦ rw more (
        after_recv_ends (recv_loop p s fuel len) total buffer _
          (λ t b n' lt. recv_loop_ends fuel len t b n' (ground arith)))
  ]

  -- Whatever the operating system answers, `socket_recv` ends, with success or with SOCKET_ERR.
  pub socket_recv_ends : (len : ℕ) (n : p.Net) → IsEnd (socket_recv p s len n).0
  unfolding socket_recv
  socket_recv_ends len n = recv_loop_ends (suc len) len 0 [] n (omega arith)

-- The call took from the stream, whose rest was `before`, what the buffer got.
abbrev Took : (p : Platform) (s : ℕ) → Stream p s → ℕ → Bytes → Bytes × p.Net → Type 0
Took p s stream len before (buffer, n') =
    (before ≡ buffer ++ stream.coming n') × (length buffer ≡ len)

module _ (p : Platform) (s : ℕ) (stream : Stream p s) where
  -- What was received so far, `buffer`, and what is still to come make up the stream.
  after_recv_takes :
      (loop : ℕ → Bytes → p.Net → ErrorInfo × Bytes × p.Net) (len total : ℕ) (buffer : Bytes)
      (n : p.Net) (r : ℤ × Bytes × p.Net)
      → len < 2 ^ 31
      → total < len
      → length buffer ≡ total
      → p.recv s (to_int (len - total)) n ≡ r
      → ((t : ℕ) (b : Bytes) (n' : p.Net)
          → t ≤ len
          → length b ≡ t
          → (loop t b n').0.e ≡ ErrorCode.success
          → Took p s stream len (b ++ stream.coming n') ((loop t b n').1, (loop t b n').2))
      → (after_recv p s loop total buffer r).0.e ≡ ErrorCode.success
      → Took p s stream len
          (buffer ++ stream.coming n)
          ((after_recv p s loop total buffer r).1, (after_recv p s loop total buffer r).2)
  unfolding after_recv
  after_recv_takes loop len total buffer n (pos zero, b, n') small more held e ih h = cc
  after_recv_takes loop len total buffer n (negsuc k, b, n') small more held e ih h = cc
  after_recv_takes loop len total buffer n (pos (suc k), b, n') small more held e ih h =
      let (fits, size, taken) =
        stream.recv_takes (len - total) k b n n'
          (rw (to_int_small (len - total) (omega arith)) at e) in
      let (whole, full) =
        ih (total + suc k) (buffer ++ b) n' (omega arith) (omega (arith, length-append buffer b))
          h in
      (
        ap (λ rest. buffer ++ rest) taken ∙ sym (append_assoc buffer b (stream.coming n')) ∙ whole,
        full,
      )

  recv_loop_takes :
      (fuel len total : ℕ) (buffer : Bytes) (n : p.Net)
      → len < 2 ^ 31
      → total ≤ len
      → length buffer ≡ total
      → (recv_loop p s fuel len total buffer n).0.e ≡ ErrorCode.success
      → Took p s stream len
          (buffer ++ stream.coming n)
          ((recv_loop p s fuel len total buffer n).1, (recv_loop p s fuel len total buffer n).2)
  unfolding recv_loop
  recv_loop_takes zero len total buffer n small bound held h = cc
  recv_loop_takes (suc fuel) len total buffer n small bound held h =
      elim (Bool-cases (ltb total len)) [
        | inr done ↦ rw done (refl, ground arith)
        | inl more ↦ rw more (
            after_recv_takes (recv_loop p s fuel len) len total buffer n _ small (ground arith) held
              refl (λ t b n' le size ok. recv_loop_takes fuel len t b n' small le size ok)
              (rw more at h))
      ]

  -- A successful `socket_recv` of `len` bytes, less than 2^31, has taken exactly the first `len` bytes
  -- of what was to come, and its buffer holds them.
  pub socket_recv_takes :
      (len : ℕ) (n : p.Net)
      → len < 2 ^ 31
      → (socket_recv p s len n).0.e ≡ ErrorCode.success
      → (stream.coming n ≡ (socket_recv p s len n).1 ++ stream.coming (socket_recv p s len n).2)
        × (length (socket_recv p s len n).1 ≡ len)
  unfolding socket_recv
  socket_recv_takes len n small h = recv_loop_takes (suc len) len 0 [] n small (omega arith) refl h

module _ (p : Platform) (s : ℕ) (stream : Stream p s) (link : IsOpen p s stream) where
  -- `recv` as the loop calls it, while some of the bytes are wanted and to come.
  recv_some :
      (want : ℕ) (n : p.Net)
      → want < 2 ^ 31
      → 1 ≤ want
      → 1 ≤ length (stream.coming n)
      → (k : ℕ) × (b : Bytes) × (n' : p.Net) × (p.recv s (to_int want) n ≡ (pos (suc k), b, n'))
  recv_some zero n small w c = absurd (omega arith)
  recv_some (suc want) n small w c =
      rw (to_int_small (suc want) small) (link.recv_progress want n (not_empty (stream.coming n) c))
    where
      not_empty : (b : Bytes) → 1 ≤ length b → b ≢ []
      not_empty [] le = absurd (omega arith)
      not_empty (x ∷ b) le = λ e. cc

  recv_loop_succeeds :
      (fuel len total : ℕ) (buffer : Bytes) (n : p.Net)
      → len < 2 ^ 31
      → total ≤ len
      → len - total < fuel
      → len - total ≤ length (stream.coming n)
      → (recv_loop p s fuel len total buffer n).0.e ≡ ErrorCode.success
  unfolding recv_loop after_recv
  recv_loop_succeeds zero len total buffer n small bound fuelled enough = elim fuelled [ ]
  recv_loop_succeeds (suc fuel) len total buffer n small bound fuelled enough =
      elim (Bool-cases (ltb total len)) [
        | inr done ↦ rw done refl
        | inl more ↦
            (let (k, b, n', got) =
                recv_some (len - total) n (omega arith) (ground arith) (ground arith) in
              let (fits, size, taken) =
                stream.recv_takes (len - total) k b n n'
                  (rw (to_int_small (len - total) (omega arith)) at got) in
              rw (more, got)
                (recv_loop_succeeds fuel len (total + suc k) (buffer ++ b) n' small (omega arith)
                  (ground arith)
                  (omega (arith, ap length taken, length-append b (stream.coming n')))))
      ]

  -- On a connection in order, `socket_recv` succeeds once the bytes that it wants are to come.
  pub socket_recv_succeeds :
      (len : ℕ) (n : p.Net)
      → len < 2 ^ 31
      → len ≤ length (stream.coming n)
      → (socket_recv p s len n).0.e ≡ ErrorCode.success
  unfolding socket_recv
  socket_recv_succeeds len n small enough =
      recv_loop_succeeds (suc len) len 0 [] n small (omega arith) (omega arith) (omega arith)

  -- On a connection in order, `socket_recv` takes from the front of the stream.
  pub socket_recv_front :
      (len : ℕ) (n : p.Net) (x y : Bytes)
      → len < 2 ^ 31
      → length x ≡ len
      → stream.coming n ≡ x ++ y
      → ((socket_recv p s len n).0.e ≡ ErrorCode.success)
        × ((socket_recv p s len n).1 ≡ x)
        × (stream.coming (socket_recv p s len n).2 ≡ y)
  socket_recv_front len n x y small size e =
      let arrived : (socket_recv p s len n).0.e ≡ ErrorCode.success =
        socket_recv_succeeds len n small (omega (arith, ap length e, length-append x y)) in
      let (whole, full) = socket_recv_takes p s stream len n small arrived in
      let (front, rest) =
        append_split (socket_recv p s len n).1 (stream.coming (socket_recv p s len n).2) x y
          (full ∙ sym size) (sym whole ∙ e) in
      (arrived, front, rest)
