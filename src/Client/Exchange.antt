-- ===== src/Client/Exchange.antt =====
-- A command of the client and the response of the server, through both ends of a connection.
use dcn1003_group.Base.{
  ℕ, ◌≤◌, ◌<◌, ◌^◌, ◌≡◌, refl, sym, ap, ◌∙◌, false, some, List, [], ◌∷◌, ◌++◌, arith, All, Bytes,
  is_empty,
}
use dcn1003_group.CmdType.{cmd_query_by_code_req, cmd_query_resp}
use dcn1003_group.Error.{ErrorCode, no_error}
use dcn1003_group.Wire.{Course, serialize_courses}
use dcn1003_group.Wire.RoundTrip.{IsPlainCourse, parse_courses-serialize_courses}
use dcn1003_group.Repository.{CourseRepository, AdministratorRepository}
use dcn1003_group.Dispatch.{json, MsgBody, Response, respond, Context}
use dcn1003_group.Platform.{Platform, Stream, IsOpen, Serializes, Ciphers}
use dcn1003_group.Protocol.{
  Process, max_body, load_key, new_body, received, stamped, package_send, package_send_fields,
  package_receive,
}
use dcn1003_group.Protocol.RoundTrip.{wire_size, package_receive-package_send}
use dcn1003_group.Server.Connection.{send_response_s}
use dcn1003_group.Server.Access.{serve_request}
use dcn1003_group.Client.{ClientResponse, read_response, send_and_recv, client_query_code}
use dcn1003_group.Client.Requests.{serve-client_query_code}

module _ (p : Platform) (s : ℕ) where
  -- A response without error went out as a message with one field.
  send_response_s_sends :
      (resp : Response) (h : Process p)
      → (send_response_s p s resp h).0.e ≡ ErrorCode.success
      → ((package_send_fields p s (resp.payload ∷ []) resp.cmd_type h).0.e ≡ ErrorCode.success)
        × ((send_response_s p s resp h).1
            ≡ (package_send_fields p s (resp.payload ∷ []) resp.cmd_type h).1)
  unfolding send_response_s package_send package_send_fields
  send_response_s_sends resp h ok = ground arith

  -- A call of the client whose two parts succeed reads the message that it received.
  send_and_recv_reads :
      (fields : List Bytes) (cmd : ℕ) (out : ClientResponse) (h : Process p) (body : MsgBody)
      → (package_send_fields p s fields cmd h).0.e ≡ ErrorCode.success
      → (package_receive p s (package_send_fields p s fields cmd h).1).0 ≡ no_error
      → (package_receive p s (package_send_fields p s fields cmd h).1).1 ≡ some body
      → ((send_and_recv p s fields cmd out h).0 ≡ no_error)
        × ((send_and_recv p s fields cmd out h).1 ≡ read_response body out)
  unfolding send_and_recv
  send_and_recv_reads fields cmd out h body sent got msg = ground arith

read_response_courses :
    (body : MsgBody) (out : ClientResponse) (cs : List Course)
    → body.cmd_type ≡ cmd_query_resp
    → json body.payload 0 ≡ serialize_courses cs
    → All IsPlainCourse cs
    → (read_response body out).courses ≡ cs
unfolding read_response
read_response_courses body out cs cmd text plain =
    ground (arith, parse_courses-serialize_courses cs plain)

-- The client's socket `k` and the server's socket `s`.
module _ (p : Platform) (serializes : Serializes p) (ciphers : Ciphers p) (k s : ℕ)
    (near : Stream p k) (near_open : IsOpen p k near) (far : Stream p s)
    (far_open : IsOpen p s far) where
  -- The client reads the response that the server sent.
  response_read :
      (fields : List Bytes) (cmd : ℕ) (out : ClientResponse) (h hs : Process p) (resp : Response)
      (frame rest : Bytes)
      → resp.cmd_type < 2 ^ 32
      → hs.req_id < 2 ^ 32
      → wire_size p serializes ciphers s k far near near_open (resp.payload ∷ []) resp.cmd_type hs
        ≤ max_body
      → (package_send_fields p k fields cmd h).0.e ≡ ErrorCode.success
      → (send_response_s p s resp hs).0.e ≡ ErrorCode.success
      → far.sent (send_response_s p s resp hs).1.net ≡ far.sent hs.net ++ frame
      → near.coming (package_send_fields p k fields cmd h).1.net ≡ frame ++ rest
      → (package_send_fields p k fields cmd h).1.key ≡ (load_key p hs).1.key
      → ((send_and_recv p k fields cmd out h).0 ≡ no_error)
        × ((send_and_recv p k fields cmd out h).1
            ≡ read_response
                (stamped p (new_body resp.cmd_type (resp.payload ∷ [])) (load_key p hs).1)
                out)
  response_read fields cmd out h hs resp frame rest c q small sent answered queued front key =
      let (ok, same) = send_response_s_sends p s resp hs answered in
      let (got, msg, left) =
        package_receive-package_send p serializes ciphers s k far near near_open (resp.payload ∷ [])
          resp.cmd_type hs (package_send_fields p k fields cmd h).1 frame rest c q small ok
          (ap (λ (x : Process p). far.sent x.net) (sym same) ∙ queued) front key in
      send_and_recv_reads p k fields cmd out h _ sent got msg

  module _ (c : CourseRepository) (a : AdministratorRepository) where
    -- What the server makes of the next message on its socket: the response, and its process.
    abbrev pub turn : Context c a → Process p → Response × Process p
    turn w hs =
        ((serve_request c a (received (package_receive p s hs).1) w).0, (package_receive p s hs).2)

    turn_answers :
        (code : Bytes) (body : MsgBody) (w : Context c a) (hs : Process p)
        → body.cmd_type ≡ cmd_query_by_code_req
        → body.payload ≡ code ∷ []
        → is_empty code ≡ false
        → (package_receive p s hs).1 ≡ some body
        → (turn w hs).0
          ≡ respond cmd_query_resp (serialize_courses (c.search_by_course_code code w.courses).0)
    turn_answers code body w hs cmd sent filled msg = rw msg (
        ap (λ (x : Response × Context c a). x.0)
          (serve-client_query_code c a code body w cmd sent filled))

    -- A query by code through both ends: the client sends the command, the server receives it, serves
    -- it and sends its response, the client receives that. If both sends succeed and each end finds the
    -- other's bytes at the front of its stream, with the same key, numbers that fit 32 bits and bodies
    -- of at most 16 MiB, then the call returns success and its courses are exactly the ones that the
    -- repository found, if no field of theirs holds a separator byte.
    pub client_query_code-exchange :
        (code : Bytes) (out : ClientResponse) (w : Context c a) (h hs : Process p)
        (frame rest frame' rest' : Bytes)
        → is_empty code ≡ false
        → All IsPlainCourse (c.search_by_course_code code w.courses).0
        → h.req_id < 2 ^ 32
        → wire_size p serializes ciphers k s near far far_open (code ∷ []) cmd_query_by_code_req h
          ≤ max_body
        → (package_send_fields p k (code ∷ []) cmd_query_by_code_req h).0.e ≡ ErrorCode.success
        → near.sent (package_send_fields p k (code ∷ []) cmd_query_by_code_req h).1.net
          ≡ near.sent h.net ++ frame
        → far.coming hs.net ≡ frame ++ rest
        → hs.key ≡ (load_key p h).1.key
        → (turn w hs).1.req_id < 2 ^ 32
        → wire_size p serializes ciphers s k far near near_open
            ((turn w hs).0.payload ∷ [])
            (turn w hs).0.cmd_type
            (turn w hs).1
          ≤ max_body
        → (send_response_s p s (turn w hs).0 (turn w hs).1).0.e ≡ ErrorCode.success
        → far.sent (send_response_s p s (turn w hs).0 (turn w hs).1).1.net
          ≡ far.sent (turn w hs).1.net ++ frame'
        → near.coming (package_send_fields p k (code ∷ []) cmd_query_by_code_req h).1.net
          ≡ frame' ++ rest'
        → (package_send_fields p k (code ∷ []) cmd_query_by_code_req h).1.key
          ≡ (load_key p (turn w hs).1).1.key
        → ((client_query_code p k code out h).0 ≡ no_error)
          × ((client_query_code p k code out h).1.courses
              ≡ (c.search_by_course_code code w.courses).0)
    client_query_code-exchange code out w h hs frame rest frame' rest' filled plain q small sent
          queued front key q' small' answered queued' front' key' =
        let (got, msg, left) =
          package_receive-package_send p serializes ciphers k s near far far_open (code ∷ [])
            cmd_query_by_code_req h hs frame rest (omega arith) q small sent queued front key in
        let resp_eq = turn_answers code _ w hs refl refl filled msg in
        let cmd_eq = ap (λ (x : Response). x.cmd_type) resp_eq in
        let (done, read) =
          response_read (code ∷ []) cmd_query_by_code_req out h (turn w hs).1 (turn w hs).0 frame'
            rest' (omega (arith, cmd_eq)) q' small' sent answered queued' front' key' in
        (
          done,
          ap (λ (x : ClientResponse). x.courses) read
              ∙ read_response_courses _ out (c.search_by_course_code code w.courses).0 cmd_eq
                  (ap (λ (x : Response). x.payload) resp_eq) plain,
        )
