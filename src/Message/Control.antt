-- ===== src/Message/Control.antt =====
-- `Open` and `Close` as messages (src/message.rs): they have no wire type.
use hypercore_protocol_rs.Prelude.{ℕ, ◌≡◌, refl, ap, ok, true, arith}
use hypercore_protocol_rs.Wire.{Bytes, External, ◌⨟◌}
use hypercore_protocol_rs.Schema.Open
use hypercore_protocol_rs.Schema.Open.{Open}
use hypercore_protocol_rs.Schema.Close
use hypercore_protocol_rs.Schema.Close.{Close}
use hypercore_protocol_rs.Message.{
  open_msg, close_msg, is_open_or_close, typ_size, msg_size, encoded_size, encode_typ, encode_msg,
  encode,
}

module _ (x : External) where
  pub encoded_size-open :
      (o : Open) (n : ℕ) → Open.encoded_size x o ≡ ok n → encoded_size x (open_msg o) ≡ ok n
  unfolding encoded_size typ_size msg_size is_open_or_close
  encoded_size-open o n h = rw h (ap ok (omega arith))

  pub encoded_size-close :
      (c : Close) (n : ℕ) → Close.encoded_size x c ≡ ok n → encoded_size x (close_msg c) ≡ ok n
  unfolding encoded_size typ_size msg_size is_open_or_close
  encoded_size-close c n h = rw h (ap ok (omega arith))

  pub encode-open :
      (o : Open) (buf bs rest : Bytes)
      → Open.encode x o buf ≡ ok (bs, rest)
      → encode x (open_msg o) buf ≡ ok (bs, rest)
  unfolding encode encode_typ encode_msg is_open_or_close ◌⨟◌
  encode-open o buf bs rest h = rw h

  pub encode-close :
      (c : Close) (buf bs rest : Bytes)
      → Close.encode x c buf ≡ ok (bs, rest)
      → encode x (close_msg c) buf ≡ ok (bs, rest)
  unfolding encode encode_typ encode_msg is_open_or_close ◌⨟◌
  encode-close c buf bs rest h = rw h

  pub open-is_open_or_close : (o : Open) → is_open_or_close {x = x} (open_msg o) ≡ true
  unfolding is_open_or_close
  open-is_open_or_close o = refl

  pub close-is_open_or_close : (c : Close) → is_open_or_close {x = x} (close_msg c) ≡ true
  unfolding is_open_or_close
  close-is_open_or_close c = refl
