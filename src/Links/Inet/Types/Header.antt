-- ===== src/Links/Inet/Types/Header.antt =====
-- A request as it goes over the wire, and what the peer reads from it.
use flex_gas.Agent.Window.{u64}
use flex_gas.Links.Inet.Types.{
  InetRequest, InetRequestType, encode, header_size, preq_length, preq_rem_addr, preq_type, recv,
  rem_rd, rem_rd_notf, rem_rd_rpy, rem_wr, rem_wr_notf, rem_wr_rpy, send, type_code, type_of_code,
}
use flex_gas.Links.Memory.{Memory, of_bytes, of_bytes-le_bytes, read_bytes-field, write_bytes}
use flex_gas.Prelude.{ap, arith, length, refl, some, ◌<◌, ◌∙◌, ◌≡◌}

pub type_of_code-type_code : (t : InetRequestType) → type_of_code (type_code t) ≡ some t
unfolding type_of_code type_code
type_of_code-type_code send = refl
type_of_code-type_code recv = refl
type_of_code-type_code rem_rd = refl
type_of_code-type_code rem_wr = refl
type_of_code-type_code rem_rd_rpy = refl
type_of_code-type_code rem_wr_rpy = refl
type_of_code-type_code rem_rd_notf = refl
type_of_code-type_code rem_wr_notf = refl

type_code-lt : (t : InetRequestType) → type_code t < 256
unfolding type_code
type_code-lt t = ground arith

pub length-encode : (r : InetRequest) → length (encode r) ≡ header_size
unfolding encode
length-encode r = refl

-- The numbers of a request fit into their fields.
pub record FitsHeader (r : InetRequest) : Type 0 where
  pub rem_addr_fits : r.rem_addr < u64
  pub length_fits : r.length < u64

-- Whatever the buffer held before, once the bytes of a request stand in it the peer reads from it
-- the type, the remote address and the length of that request.
pub preq-encode :
    (m : Memory) (r : InetRequest)
    → FitsHeader r
    → (preq_type (write_bytes m 0 (encode r)) ≡ some r.type)
      × (preq_rem_addr (write_bytes m 0 (encode r)) ≡ r.rem_addr)
      × (preq_length (write_bytes m 0 (encode r)) ≡ r.length)
unfolding preq_type preq_rem_addr preq_length
preq-encode m r fits = (
  ap (λ l. type_of_code (of_bytes l))
        (read_bytes-field m 0 16 4 (encode r) (rw (length-encode r) (omega arith)))
      ∙ unfold encode in
        ap type_of_code
          (of_bytes-le_bytes 4 (type_code r.type) (omega (arith, type_code-lt r.type)))
        ∙ type_of_code-type_code r.type,
  ap of_bytes (read_bytes-field m 0 32 8 (encode r) (rw (length-encode r) (omega arith)))
      ∙ unfold encode in of_bytes-le_bytes 8 r.rem_addr (omega arith),
  ap of_bytes (read_bytes-field m 0 40 8 (encode r) (rw (length-encode r) (omega arith)))
      ∙ unfold encode in of_bytes-le_bytes 8 r.length (omega arith),
)
