-- ===== src/Links/Inet/Requests/Steps.antt =====
-- One look of the handler at a send or a remote write.
use mathlib.Core.List.{append-nil}
use flex_gas.Links.Inet.Host.{Host}
use flex_gas.Links.Inet.Queues.{is_free}
use flex_gas.Links.Inet.Requests.{
  dispatch_request, handle_request, handle_request_rem_wr, handle_request_send, send_body,
  send_header,
}
use flex_gas.Links.Inet.Requests.Pieces.{body_step, header_step}
use flex_gas.Links.Inet.Requests.Sending.{Sending, SendsData, Sent, finished, in_body, in_header}
use flex_gas.Links.Inet.Types.{InetConnection, InetRequest, Ptr, body, free, header}
use flex_gas.Links.Inet.Types.Header.{FitsHeader}
use flex_gas.Prelude.{List, [], arith, refl, some, subst, sym, ℕ, ◌∙◌, ◌≡◌}

module _ (p : Ptr) (r : InetRequest) (c : InetConnection) (h : Host) (kind : SendsData r.type) where
  takes_header_step :
      c.lreq.req ≡ some p
      → h.requests p ≡ some r
      → c.lreq.state ≡ header
      → handle_request c h ≡ send_header body c h
  unfolding handle_request is_free dispatch_request handle_request_send handle_request_rem_wr
  takes_header_step posted live at = ground arith

  takes_body_step :
      c.lreq.req ≡ some p
      → h.requests p ≡ some r
      → c.lreq.state ≡ body
      → handle_request c h ≡ send_body c h
  unfolding handle_request is_free dispatch_request handle_request_send handle_request_rem_wr
  takes_body_step posted live at = ground arith

handle_request-free :
    (c : InetConnection) (h : Host) → c.lreq.state ≡ free → handle_request c h ≡ some (c, h)
unfolding handle_request is_free
handle_request-free c h at = ground arith

-- One look of the handler at the request, whatever the socket takes: there is no fault.
pub Sending-step :
    (p : Ptr) (r : InetRequest) (c : InetConnection) (h : Host) (rest : List ℕ)
    → FitsHeader r
    → SendsData r.type
    → Sending p r c h rest
    → (c' : InetConnection) × (h' : Host) × (sent rest' : List ℕ) × (handle_request c h
        ≡ some (c', h'))
      × Sent p r c c' h h' rest sent rest'
Sending-step p r c h rest fits kind (in_header posted live at below e) =
    let (c', h', sent, rest', ran, s) = header_step p r c h fits posted live at below in
    (
      c',
      h',
      sent,
      rest',
      takes_header_step p r c h kind posted live at ∙ ran,
      subst (λ l. Sent p r c c' h h' l sent rest') (sym e) s,
    )
Sending-step p r c h rest fits kind (in_body posted live at below e) =
    let (c', h', sent, rest', ran, s) = body_step p r c h fits posted live at below in
    (
      c',
      h',
      sent,
      rest',
      takes_body_step p r c h kind posted live at ∙ ran,
      subst (λ l. Sent p r c c' h h' l sent rest') (sym e) s,
    )
Sending-step p r c h rest fits kind (finished gone at ended there e) = (
  c,
  h,
  [],
  rest,
  handle_request-free c h at,
  record {
    goes_on = finished gone at ended there e;
    in_order = refl;
    handed = sym (append-nil (h.sockets c.lreq.fd).out);
    same_fd = refl;
    same_mem = refl;
    uses = λ busy. absurd (ground arith);
    shrinks = λ k ready busy. absurd (ground arith);
  },
)
