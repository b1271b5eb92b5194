-- ===== src/Storage/Codec/Reads.antt =====
-- Reading at a cursor: what stands there is what `drop` leaves.
use iroh_raft.Common.{
  ℕ, ◌+◌, ◌-◌, ◌^◌, ◌≤◌, ◌<◌, ◌≡◌, ap, ◌∙◌, ◌++◌, arith, length, drop, slice, length-append,
  length-drop, drop-drop, take-append, slice-append, drop-append,
}
use iroh_raft.Common.Bytes.{
  to_le_bytes, from_le_bytes, length-to_le_bytes, from_le_bytes-to_le_bytes,
}
use iroh_raft.Storage.Codec.{Bytes, read_le}

module _ (buf front back : Bytes) (cursor n : ℕ) (e : length front ≡ n)
    (here : drop cursor buf ≡ front ++ back) where
  pub slice-here : slice buf cursor (cursor + n) ≡ front
  slice-here =
      let width : cursor + n - cursor ≡ length front = omega arith in
      rw (width, here) (take-append front back)

  -- What follows the part that was read.
  pub drop-next : drop (cursor + n) buf ≡ back
  drop-next = rw (drop-drop n cursor buf, here, ← e) (drop-append front back)

  -- The check before a read passes, and says what is left behind it.
  pub fits : 0 < n → length buf ≡ cursor + n + length back
  fits h = omega (arith, ap length here, length-append front back, length-drop cursor buf)

-- A number that `to_le_bytes` wrote is what `read_le` reads.
pub read_le-to_le_bytes :
    (k n : ℕ) (buf back : Bytes) (cursor : ℕ)
    → n < 256 ^ k
    → drop cursor buf ≡ to_le_bytes k n ++ back
    → read_le k buf cursor ≡ n
unfolding read_le
read_le-to_le_bytes k n buf back cursor small here =
    ap from_le_bytes (slice-here buf (to_le_bytes k n) back cursor k (length-to_le_bytes k n) here)
    ∙ from_le_bytes-to_le_bytes k n small

-- A read inside a buffer does not see what follows the buffer.
pub read_le-append :
    (k : ℕ) (buf back : Bytes) (cursor : ℕ)
    → cursor + k ≤ length buf
    → read_le k (buf ++ back) cursor ≡ read_le k buf cursor
unfolding read_le
read_le-append k buf back cursor h =
    ap from_le_bytes (slice-append buf back cursor (cursor + k) (omega arith) h)
