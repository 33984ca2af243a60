-- ===== src/Transfer/Tags.antt =====
-- The tags by which the two ends of a tagged connection find each other's messages.
use efa_libfabric_bench.Prelude.{
  ℕ, ◌≡◌, ◌≢◌, true, Option, none, some, arith, ap, ◌∙◌, sym, Bool-cases, inl, inr, ◌||◌,
}
use efa_libfabric_bench.Fabric.{Ret, Request, Fabric, Handle, Flag, is_ok}
use efa_libfabric_bench.Context.{Context, opt, inc64}
use efa_libfabric_bench.Context.Options
use efa_libfabric_bench.Machine.{State, returns}
use efa_libfabric_bench.Post.{tx, rx}
use efa_libfabric_bench.Post.Laws.{erase, ft_post_success}
use efa_libfabric_bench.Transfer.{
  tx_request, sendmsg_request, recvmsg_request, rx_request, ft_post_tx, ft_post_tx_buf, ft_sendmsg,
  ft_post_rx, ft_post_rx_buf,
}

-- The tag that a request sends or matches.
abbrev pub tag_of : Request → Option ℕ
tag_of (Request.tsend b d t c) = some t
tag_of (Request.tsenddata b v d t c) = some t
tag_of (Request.tsendmsg b d t c f) = some t
tag_of (Request.tinject b d t) = some t
tag_of (Request.trecv b s t c) = some t
tag_of (Request.trecvmsg b s t c f) = some t
tag_of _ = none

-- A sender and a receiver that stand at the same message.
pub record InStep (a b : Context) : Type 0 where
  pub same_kind : a.hints.caps.tagged ≡ b.hints.caps.tagged
  pub same_tag : a.ft_tag ≡ b.ft_tag
  pub same_message : a.tx_seq ≡ b.rx_seq

module _ {W : Type 0} (fab : Fabric W) where
  -- What a successful send leaves of the sender.
  ft_post_tx-step :
      (rounds dest size v : ℕ) (h : Handle) (s : State W) (r : Ret) (t : State W)
      → ft_post_tx fab rounds dest size v h s ≡ returns r t
      → is_ok r ≡ true
      → (t.ctx.tx_seq ≡ inc64 s.ctx.tx_seq)
        × (t.ctx.hints ≡ s.ctx.hints)
        × (t.ctx.ft_tag ≡ s.ctx.ft_tag)
  unfolding ft_post_tx ft_post_tx_buf ft_sendmsg erase
  ft_post_tx-step rounds dest size v h s r t e o =
      let req = tx_request s.ctx dest size v h s.ctx.tx_buf s.ctx.ft_tag in
      elim (Bool-cases (opt s.ctx Options.selective_comp || opt s.ctx Options.fi_more)) [
        | inl y ↦ ground arith
        | inr z ↦
            let p = (ft_post_success fab tx req rounds s {r = r} {t = t} (ground arith) o).0 in
            (ap (λ c. c.tx_seq) p, ap (λ c. c.hints) p, ap (λ c. c.ft_tag) p)
      ]

  ft_post_rx-step :
      (rounds size : ℕ) (h : Handle) (s : State W) (r : Ret) (t : State W)
      → ft_post_rx fab rounds size h s ≡ returns r t
      → is_ok r ≡ true
      → (t.ctx.rx_seq ≡ inc64 s.ctx.rx_seq)
        × (t.ctx.hints ≡ s.ctx.hints)
        × (t.ctx.ft_tag ≡ s.ctx.ft_tag)
  unfolding ft_post_rx ft_post_rx_buf erase
  ft_post_rx-step rounds size h s r t e o =
      let p =
        (ft_post_success fab rx (rx_request s.ctx size h s.ctx.rx_buf s.ctx.ft_tag) rounds s {r = r}
          {t = t} e o).0 in
      (ap (λ c. c.rx_seq) p, ap (λ c. c.hints) p, ap (λ c. c.ft_tag) p)

  -- `ft_post_tx` by one end and `ft_post_rx` by the other that both succeed keep the two ends in
  -- step.
  pub InStep-kept :
      (rounds dest size n v : ℕ) (h k : Handle) (a b a' b' : State W) (r r' : Ret)
      → InStep a.ctx b.ctx
      → ft_post_tx fab rounds dest size v h a ≡ returns r a'
      → is_ok r ≡ true
      → ft_post_rx fab rounds n k b ≡ returns r' b'
      → is_ok r' ≡ true
      → InStep a'.ctx b'.ctx
  InStep-kept rounds dest size n v h k a b a' b' r r' i e o e' o' =
      let x = ft_post_tx-step rounds dest size v h a r a' e o in
      let y = ft_post_rx-step rounds n k b r' b' e' o' in
      record {
        same_kind = ap (λ z. z.caps.tagged) x.1 ∙ i.same_kind ∙ sym (ap (λ z. z.caps.tagged) y.1);
        same_tag = x.2 ∙ i.same_tag ∙ sym y.2;
        same_message = x.0 ∙ ap inc64 i.same_message ∙ sym y.0;
      }

-- `ft_recvmsg` asks for the tag of its own next send: on a tagged connection without a fixed tag it
-- does not ask for the tag that the `ft_sendmsg` of a sender in step gives, where its own sends are
-- not as many as its receives.
pub recvmsg_misses :
    (a b : Context) (dest size n : ℕ) (h k : Handle) (f g : Flag)
    → InStep a b
    → b.hints.caps.tagged ≡ true
    → b.ft_tag ≡ 0
    → b.tx_seq ≢ b.rx_seq
    → tag_of (sendmsg_request a dest size h f) ≢ tag_of (recvmsg_request b dest n k g)
unfolding sendmsg_request recvmsg_request
recvmsg_misses a b dest size n h k f g i c z ne = λ e. ne (ground arith)
