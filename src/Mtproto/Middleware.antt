-- ===== src/Mtproto/Middleware.antt =====
-- internal/mtproto/middleware.go: the wrappers around a request are taken off before its handler sees it. The decoders
-- are the TL library's: a Query is what they find in the bytes of a request.
use teled.Prelude.{ℕ, List, Int64}
use teled.Mtproto.Sending.{Session, Mt}
use teled.Mtproto.Handling.{Request, Served, broke}

-- A query without a type id, a wrapper that does not decode, the three wrappers, and any other query with its bytes.
pub data Query : Type 0 where
  no_type_id broken_wrapper : Query
  invoke_with_layer init_connection invoke_without_updates : Query → Query
  plain : List ℕ → Query

module _ {S A : Type 0} (next : Request → Mt S A → Served × Mt S A) where
  -- The loop over the wrappers. A wrapper around a query without a type id fails as that query does.
  unfoldable pub unpack_invoke : Session → Int64 → Query → Mt S A → Served × Mt S A
  unpack_invoke k msg_id no_type_id st = (broke, st)
  unpack_invoke k msg_id broken_wrapper st = (broke, st)
  unpack_invoke k msg_id (invoke_with_layer q) st = unpack_invoke k msg_id q st
  unpack_invoke k msg_id (init_connection q) st = unpack_invoke k msg_id q st
  unpack_invoke k msg_id (invoke_without_updates q) st = unpack_invoke k msg_id q st
  unpack_invoke k msg_id (plain bytes) st =
      next (record { session = k; msg_id = msg_id; buf = bytes }) st
