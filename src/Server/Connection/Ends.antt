-- ===== src/Server/Connection/Ends.antt =====
-- The thread of a connection ends once the peer's bytes are used up.
use dcn1003_group.Base.{
  ℕ, zero, suc, ◌<◌, ◌≡◌, refl, inl, inr, Option, some, arith, Bool-cases, Bytes, length,
}
use dcn1003_group.Base.Int.{ℤ}
use dcn1003_group.Error.{ErrorInfo, is_success}
use dcn1003_group.Repository.{CourseRepository, AdministratorRepository}
use dcn1003_group.Dispatch.{Response, Context, Dispatcher, dispatch}
use dcn1003_group.Platform.{Platform, Stream}
use dcn1003_group.Protocol.{received, Process, package_receive}
use dcn1003_group.Protocol.Progress.{package_send_keeps, package_receive_takes}
use dcn1003_group.Server.Connection.{
  send_response_s, opened, Thread, after_response, answer, after_receive, client_loop,
  handle_client,
}

module _ (p : Platform) (s : ℕ) (view : p.Net → Bytes)
    (fixed : (d : Bytes) (len : ℤ) (n : p.Net) → view (p.send s d len n).1 ≡ view n) where
  send_response_s_keeps :
      (resp : Response) (h : Process p) → view (send_response_s p s resp h).1.net ≡ view h.net
  unfolding send_response_s
  send_response_s_keeps resp h =
      ground (arith, package_send_keeps p s view fixed resp.payload resp.cmd_type h)

module _ (p : Platform) (s : ℕ) (stream : Stream p s)
    (fixed : (d : Bytes) (len : ℤ) (n : p.Net)
      → stream.coming (p.send s d len n).1 ≡ stream.coming n)
    (c : CourseRepository) (a : AdministratorRepository) (table : Dispatcher c a) where
  -- The loop ends from every state with fewer bytes to come.
  abbrev EndsBelow : ℕ → (Thread p c a → Option (Thread p c a)) → Type 0
  EndsBelow bound loop =
      (t : Thread p c a)
      → length (stream.coming t.1.net) < bound
      → (t' : Thread p c a) × (loop t ≡ some t')

  after_response_ends :
      (loop : Thread p c a → Option (Thread p c a)) (bound : ℕ) (w : Context c a)
      (r : ErrorInfo × Process p)
      → EndsBelow bound loop
      → length (stream.coming r.1.net) < bound
      → (t' : Thread p c a) × (after_response p s c a table loop w r ≡ some t')
  unfolding after_response
  after_response_ends loop bound w (err, h) ends small = elim (Bool-cases (is_success err)) [
    | inl ok ↦ (let (t', e) = ends (w, h) small in (t', rw (ok, after_response) e))
    | inr failed ↦ ((w, h), rw (failed, after_response) refl)
  ]

  client_loop_ends : (fuel : ℕ) → EndsBelow fuel (client_loop p s c a table fuel)
  unfolding client_loop after_receive answer
  client_loop_ends zero t small = absurd (omega arith)
  client_loop_ends (suc fuel) (w, h) small =
      elim (Bool-cases (is_success (package_receive p s h).0)) [
        | inr failed ↦ ((w, (package_receive p s h).2), rw (failed, after_receive) refl)
        | inl ok ↦
            (let (err, msg, h1) = package_receive p s h in
              let (resp, w1) = dispatch c a table (received msg) w in
              let (t', e) =
                after_response_ends (client_loop p s c a table fuel) fuel w1
                  (send_response_s p s resp h1) (client_loop_ends fuel)
                  (rw (send_response_s_keeps p s stream.coming fixed resp h1)
                    (omega (arith, package_receive_takes p s stream h ok))) in
              (t', rw (ok, after_receive) e))
      ]

  -- Whatever the peer has sent and whatever `send` answers, the thread of a connection ends: one round
  -- more than there are bytes to come is enough, since a round that goes on has taken a whole message.
  pub handle_client_ends :
      (courses : c.Repo) (admins : a.Repo) (h : Process p)
      → (t' : Thread p c a) × (handle_client p s c a table
            (suc (length (stream.coming h.net)))
            courses
            admins
            h
          ≡ some t')
  unfolding handle_client
  handle_client_ends courses admins h =
      client_loop_ends (suc (length (stream.coming h.net))) (opened c a courses admins, h)
        (omega arith)
