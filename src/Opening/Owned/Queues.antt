-- ===== src/Opening/Owned/Queues.antt =====
-- The objects of a fabric, and then the queues, the counters and the address vector, are opened in the
-- order of their ranks.
use efa_libfabric_bench.Prelude.{
  ℕ, ◌≡◌, ◌∙◌, sym, refl, Bool, true, false, arith, Bool-cases, inl, inr,
}
use efa_libfabric_bench.Context.{Info}
use efa_libfabric_bench.Context.Fids.{Fid, rxcq, txcq, rxcntr, txcntr, av, same}
use efa_libfabric_bench.Machine.{◌>>◌, then_update}
use efa_libfabric_bench.Opening.{
  open_fabric, open_eq, open_domain, open_av, Calls, ft_open_fabric_res, choose_format, share_queue,
  with_shared, own_queues, set_av_attr, set_format, shared_queue, tx_queue, tx_counter, rx_queue,
  rx_counter, address_vector, alloc_queues,
}
use efa_libfabric_bench.Opening.Owned.{owned, Calm, Leads, CallsKeep}
use efa_libfabric_bench.Opening.Owned.Combine.{
  Stage-Reaches, Quiet-returns, Calm-Leads, ◌▸◌, when-Leads, weaken-Leads, skip-Leads,
}
use efa_libfabric_bench.Opening.Owned.Asking.{change-Calm}
use efa_libfabric_bench.Opening.Owned.Opens.{
  owned-set_fid, open-Leads, open_here, counter-Leads, queue-Leads,
}

module _ {W : Type 0} {live : Fid → W → Bool} {calls : Calls W} (law : CallsKeep calls live) where
  -- The shared queue is owned once.
  share-Leads : (n : ℕ) → Leads live true n n (then_update (share_queue calls))
  share-Leads n = record {
    leads = λ s h.
        let same_owner : (y : Fid) → owned y (share_queue calls s.ctx) ≡ owned y s.ctx = λ y.
          elim (Bool-cases (same y rxcq)) [
            | inl q ↦ ground (arith, q, h.option)
            | inr q ↦ owned-set_fid rxcq y s.ctx.txcq s.ctx q
          ] in
        Stage-Reaches (record {
          true_to = λ y. h.true_to y ∙ sym (same_owner y);
          later = λ y l. same_owner y ∙ h.later y l;
          option = h.option;
          one_region = h.one_region;
        });
  }

  pub fabric-Leads : (shared : Bool) → Leads live shared 0 4 (ft_open_fabric_res calls)
  unfolding ft_open_fabric_res
  fabric-Leads shared =
      open-Leads law shared open_fabric (refl, refl)
      ▸ weaken-Leads (omega arith) (open-Leads law shared open_eq (refl, refl))
      ▸ open-Leads law shared open_domain (refl, refl)
      ▸ when-Leads calls _ (omega arith) (Calm-Leads (change-Calm law _))

  format-Calm : (fi : Info) → Calm live (set_format calls fi)
  unfolding set_format choose_format
  format-Calm fi = record {
    calm = λ s.
        Quiet-returns
          (record { fields = refl; region = refl; sharing = (refl, refl); existing = λ y. refl });
  }

  vector-Calm : (fi : Info) → Calm live (then_update (set_av_attr calls fi))
  unfolding set_av_attr
  vector-Calm fi = record {
    calm = λ s.
        Quiet-returns
          (record { fields = refl; region = refl; sharing = (refl, refl); existing = λ y. refl });
  }

  vector-Leads : (shared : Bool) (fi : Info) → Leads live shared 9 10 (address_vector calls fi)
  unfolding address_vector
  vector-Leads shared fi = when-Leads calls _ (omega arith) (
      Calm-Leads (vector-Calm fi)
      ▸ open_here law shared (λ c. open_av c.objects.av_attr) av (λ c. refl) (refl, refl))

  tx_counter-Leads : (shared : Bool) → Leads live shared 6 7 (tx_counter calls)
  unfolding tx_counter
  tx_counter-Leads shared =
      when-Leads calls _ (omega arith) (counter-Leads law shared txcntr (refl, refl))

  rx_counter-Leads : (shared : Bool) → Leads live shared 8 9 (rx_counter calls)
  unfolding rx_counter
  rx_counter-Leads shared =
      when-Leads calls _ (omega arith) (counter-Leads law shared rxcntr (refl, refl))

  -- With or without a queue of its own, the transmit side is done, and then the receive side.
  tx_queues-Leads :
      (shared : Bool) (fi : Info)
      → Leads live shared 5 6 (shared_queue calls fi >> tx_queue calls fi)
  unfolding shared_queue tx_queue
  tx_queues-Leads true fi =
      when-Leads calls (with_shared calls) (omega arith)
        (queue-Leads law true txcq _ (refl, refl) ▸ share-Leads 6)
      ▸ skip-Leads calls (own_queues calls) _ (λ c e. ground arith)
  tx_queues-Leads false fi =
      skip-Leads calls (with_shared calls) _ (λ c e. ground arith)
      ▸ when-Leads calls (own_queues calls) (omega arith)
          (queue-Leads law false txcq _ (refl, refl))

  rx_queue-Leads : (shared : Bool) (fi : Info) → Leads live shared 7 8 (rx_queue calls fi)
  unfolding rx_queue
  rx_queue-Leads true fi =
      weaken-Leads (omega arith) (skip-Leads calls (own_queues calls) _ (λ c e. ground arith))
  rx_queue-Leads false fi =
      when-Leads calls (own_queues calls) (omega arith) (queue-Leads law false rxcq _ (refl, refl))

  -- The queues, the counters and the address vector
  pub queues-Leads : (shared : Bool) (fi : Info) → Leads live shared 5 10 (alloc_queues calls fi)
  unfolding alloc_queues
  queues-Leads shared fi =
      Calm-Leads (format-Calm fi)
      ▸ tx_queues-Leads shared fi
      ▸ tx_counter-Leads shared
      ▸ rx_queue-Leads shared fi
      ▸ rx_counter-Leads shared
      ▸ vector-Leads shared fi
