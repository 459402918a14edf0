-- ===== src/Ocsp/Responder.antt =====
-- src/ocsp/clu_ocsp.c, the main loop of `ocspResponder`. The library's responder is a state with
-- the operation that writes a response to a request; the clients, and the shutdown flag at the
-- start of each round, are a list of rounds.
pub mod Budget
pub mod Answers
use wolf_clu.Base.{
  ℕ, ◌+◌, Bool, true, false, not, ◌&&◌, ◌||◌, List, [], ◌∷◌, Option, none, some, ◌==◌, leb,
  if◌then◌else◌,
}
use wolf_clu.Text.{Bytes, codes}
use wolf_clu.Net.Socket.{Conn, Room}
use wolf_clu.Ocsp.Transport.{
  Transport, ReadOutcome, ocsp_request, rejected, read_stuck, transport_read_request,
  transport_send_response, transport_send_error,
}

-- the errors of `wc_OcspResponder_WriteResponse` that the loop tells apart
pub data WriteError : Type 0 where
  asn_parse_e asn_sig_hash_e asn_no_signer_e ocsp_cert_unknown other_error : WriteError

pub data Written : Type 0 where
  response : Bytes → Written
  write_error : WriteError → Written

-- `enum Ocsp_Response_Status`, as far as the loop uses it
pub data OcspStatus : Type 0 where
  malformed_request internal_error unauthorized : OcspStatus

-- "Map error to OCSP response status"
unfoldable pub map_error : WriteError → OcspStatus
map_error asn_parse_e = malformed_request
map_error asn_sig_hash_e = internal_error
map_error asn_no_signer_e = unauthorized
map_error ocsp_cert_unknown = unauthorized
map_error other_error = internal_error

-- What a round sends; `sent` is false after a `goto continue_loop`, and `counted` says that
-- `requestsProcessed` goes up.
pub record Reply : Type 0 where
  pub wire : Bytes
  pub sent : Bool
  pub counted : Bool

abbrev pub unsent : Bytes → Reply
unsent wire = record { wire = wire; sent = false; counted = false }

pub record Client : Type 0 where
  pub conn : Conn
  pub rooms : List Room

pub record Round : Type 0 where
  pub shutdown : Bool
  pub accepted : Option Client

pub record Session : Type 0 where
  pub processed : ℕ
  pub replies : List Reply
  pub stopped : Bool

-- `requestsProcessed` behind a round: an `int`, which does not wrap below 2^31 requests
unfoldable pub count_up : Reply → ℕ → ℕ
count_up reply processed = if reply.counted then processed + 1 else processed

unfoldable pub at_limit : ℕ → ℕ → Bool
at_limit nrequest processed = not (nrequest == 0) && leb nrequest processed

-- The tests of a round: the loop's condition in front of it, and the limit behind it; `more` is
-- the rest of the loop.
unfoldable pub close_round : ℕ → Bool → ℕ → Reply → Session → Session
close_round nrequest shutdown processed reply more =
    if shutdown || at_limit nrequest processed
    then record { processed = processed; replies = []; stopped = true }
    else if reply.sent && at_limit nrequest (count_up reply processed)
    then record { processed = count_up reply processed; replies = reply ∷ []; stopped = true }
    else record {
      processed = more.processed;
      replies = reply ∷ more.replies;
      stopped = more.stopped;
    }

module _ {ℓ} {R : Type ℓ} (write_response : R → Bytes → R × Written)
    (write_error_response : OcspStatus → Option Bytes) (transport : Transport) where
  -- the error response of the library, or an error of the transport if there is none
  unfoldable pub answer_error : List Room → Option Bytes → Reply
  answer_error rooms none =
      unsent (transport_send_error transport rooms 500 (codes "Internal Server Error"))
  answer_error rooms (some resp) =
      let s = transport_send_response transport rooms resp in
      record { wire = s.wire; sent = s.complete; counted = false }

  -- from the result of `wc_OcspResponder_WriteResponse` on
  unfoldable pub answer : List Room → Written → Reply
  answer rooms (response resp) =
      let s = transport_send_response transport rooms resp in
      record { wire = s.wire; sent = s.complete; counted = s.complete }
  answer rooms (write_error e) = answer_error rooms (write_error_response (map_error e))

  -- one client, from the request on
  unfoldable pub serve_request : List Room → R → ReadOutcome → R × Reply
  serve_request rooms r (rejected wire) = (r, unsent wire)
  serve_request rooms r read_stuck = (r, unsent [])
  serve_request rooms r (ocsp_request req) =
      ((write_response r req).0, answer rooms (write_response r req).1)

  unfoldable pub serve_round : R → Option Client → R × Reply
  serve_round r none = (r, unsent [])
  serve_round r (some client) =
      serve_request client.rooms r (transport_read_request transport client.conn client.rooms)

  -- The loop; past the end of the list it waits for the next client.
  unfoldable pub serve : ℕ → List Round → R → ℕ → Session
  serve nrequest [] r processed = record { processed = processed; replies = []; stopped = false }
  serve nrequest (round ∷ rounds) r processed =
      let (r', reply) = serve_round r round.accepted in
      let more = serve nrequest rounds r' (count_up reply processed) in
      close_round nrequest round.shutdown processed reply more
