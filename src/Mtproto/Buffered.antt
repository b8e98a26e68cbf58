-- ===== src/Mtproto/Buffered.antt =====
-- internal/mtproto/buffered.go: a connection to which a frame that was read can be given back. The frames that the
-- inner connection still yields are a list; at its end the read fails.
use teled.Prelude.{ℕ, List, [], ◌∷◌, Option, none, some}

abbrev pub Frame : Type 0
Frame = List ℕ

-- bufferedConn: the last frame of `recv` is the first here.
pub record BufferedConn : Type 0 where
  pub conn : List Frame
  pub recv : List Frame

abbrev pub new_buffered_conn : List Frame → BufferedConn
new_buffered_conn conn = record { conn = conn; recv = [] }

unfoldable pub push_frame : Frame → BufferedConn → BufferedConn
push_frame b c = record c { recv = b ∷ c.recv }

unfoldable pub pop_frame : BufferedConn → Option Frame × BufferedConn
pop_frame c = elim c.recv [ [] ↦ (none, c) | r ∷ rest ↦ (some r, record c { recv = rest }) ]

-- Recv of the inner connection.
unfoldable pub recv_inner : BufferedConn → Option Frame × BufferedConn
recv_inner c = elim c.conn [ [] ↦ (none, c) | b ∷ rest ↦ (some b, record c { conn = rest }) ]

unfoldable pub recv_frame : BufferedConn → Option Frame × BufferedConn
unfolding pop_frame recv_inner
recv_frame c = let (e, c') = pop_frame c in elim e [ some b ↦ (some b, c') | none ↦ recv_inner c' ]
