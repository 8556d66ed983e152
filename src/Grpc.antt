-- ===== src/Grpc.antt =====
-- The error handling that every method of internal/grpc has around its service (`if err != nil
-- { return nil, domain.ToGrpcError(err) }`), and that every client of it has around the call
-- (`if err != nil { err = domain.FromGrpcError(err) }`).
use slps_team.Errors.{to_grpc_error, from_grpc_error}
use slps_team.Errors.Status.{GrpcStatus}
use slps_team.Flow.{Result, ok, err, Action}

module _ (g : GrpcStatus) where
  pub data Reply (A : Type 0) : Type 0 where
    message : A → Reply A
    rpc_error : g.RpcError → Reply A

module _ (g : GrpcStatus) {S A : Type 0} where
  abbrev pub reply_of : Result A × S → Reply g A × S
  reply_of (ok a, s) = (message a, s)
  reply_of (err e, s) = (rpc_error (to_grpc_error g e), s)

  -- A method of a server.
  abbrev pub serve : Action S A → S → Reply g A × S
  serve m s = reply_of (m s)

  abbrev pub result_of_reply : Reply g A × S → Result A × S
  result_of_reply (message a, s) = (ok a, s)
  result_of_reply (rpc_error r, s) = (err (from_grpc_error g r), s)

  -- A call of it through a client.
  abbrev pub call : (S → Reply g A × S) → Action S A
  call method s = result_of_reply (method s)
