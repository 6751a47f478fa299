-- ===== src/Client/Kept.antt =====
-- What a call of the client keeps of the sockets.
use dcn1003_group.Base.{ℕ, ◌≡◌, List, Bool, Bytes, arith}
use dcn1003_group.Platform.{Platform}
use dcn1003_group.Socket.Kept.{Transfers}
use dcn1003_group.Protocol.{Process, package_send_fields}
use dcn1003_group.Protocol.Kept.{package_send_fields_keeps, package_receive_keeps}
use dcn1003_group.Client.{ClientResponse, Call, send_and_recv}

module _ (p : Platform) (seen : p.Net → Bool) where
  -- The call keeps what is observed.
  abbrev pub Keeps : ((s : ℕ) → Call p s) → Type 0
  Keeps call =
      (s : ℕ) (out : ClientResponse) (h : Process p) → seen (call s out h).2.net ≡ seen h.net

  pub send_and_recv-Keeps :
      Transfers p seen → (fields : List Bytes) (cmd : ℕ) → Keeps (λ s. send_and_recv p s fields cmd)
  unfolding send_and_recv
  send_and_recv-Keeps keeps fields cmd s out h =
      let sent = package_send_fields_keeps p seen keeps s fields cmd h in
      let read = package_receive_keeps p seen keeps s (package_send_fields p s fields cmd h).1 in
      ground (arith, sent, read)
