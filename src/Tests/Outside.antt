-- ===== src/Tests/Outside.antt =====
-- The theorems on the socket, on what is shown and on the halves of a buffer, at concrete values.
use efa_libfabric_bench.Prelude.{
  ◌+◌, ◌≢◌, ℕ, zero, suc, ◌*◌, ◌/◌, ◌^◌, ◌<◌, ◌≤◌, ◌≡◌, refl, false, ◌⊎◌, some, length, List, [],
  ◌∷◌, ◌++◌, take, arith,
}
use efa_libfabric_bench.Fabric.Contract.{tx_cost}
use efa_libfabric_bench.Context.{Context, Text}
use efa_libfabric_bench.Socket.{Sent, accepted, busy, not_yet, Sockets}
use efa_libfabric_bench.Socket.Whole.{Stream, Draining, Delivered, ft_sock_send_delivers}
use efa_libfabric_bench.MultiRecv.{multi_recv_sizes}
use efa_libfabric_bench.MultiRecv.Halves.{multi_recv_halves}
use efa_libfabric_bench.Names.{
  null, array, ft_split_and_alloc, checked, fill_array, token, rest, array_size,
}
use efa_libfabric_bench.Names.Split.{Joins, ft_split_and_alloc_lem}
use efa_libfabric_bench.Tests.{Box, box, a_box, a_context}

-- A socket that takes a byte at a time, when it is no longer full.
abbrev give : ℕ → List ℕ → Box → record { result : Sent; next : Box }
give (suc k) xs b = record { result = busy; next = record b { full = k } }
give zero xs b = record { result = accepted 0; next = record b { out = b.out ++ take 1 xs } }

abbrev sockets : Sockets Box
sockets = record {
  send = λ fd xs b. give b.full xs b;
  recv = λ fd n b. record { result = not_yet; next = b };
}

give-accepts :
    (f x k : ℕ) (xs : List ℕ) (w : Box)
    → (give f (x ∷ xs) w).result ≡ accepted k
    → ((give f (x ∷ xs) w).next.out ≡ w.out ++ take (suc k) (x ∷ xs))
      × ((give f (x ∷ xs) w).next.full ≤ w.full)
give-accepts (suc f) x k xs w e = absurd (ground arith)
give-accepts zero x (suc k) xs w e = absurd (ground arith)
give-accepts zero x zero xs w e = (refl, omega arith)

give-waits :
    (f x : ℕ) (xs : List ℕ) (w : Box)
    → w.full ≡ f
    → (give f (x ∷ xs) w).result ≡ busy
    → ((give f (x ∷ xs) w).next.out ≡ w.out) × ((give f (x ∷ xs) w).next.full < w.full)
give-waits (suc f) x xs w h e = (refl, omega (arith, h))
give-waits zero x xs w h e = absurd (ground arith)

give-breaks :
    (f x : ℕ) (xs : List ℕ) (w : Box)
    → ((k : ℕ) → ¬ ((give f (x ∷ xs) w).result ≡ accepted k))
    → (give f (x ∷ xs) w).next.out ≡ w.out
give-breaks (suc f) x xs w h = refl
give-breaks zero x xs w h = absurd (h 0 refl)

take_one_apart :
    (w : Box) (q : ℕ)
    → (((box (tx_cost false)).cq_read q 0 w).next.out ≡ w.out)
      × (((box (tx_cost false)).cq_read q 0 w).next.full ≤ w.full)
take_one_apart w q = (refl, omega arith)

socket_stream : Stream (box (tx_cost false)) sockets (λ fd b. b.out)
socket_stream = record {
  accepts = λ fd x k xs w e. (give-accepts w.full x k xs w e).0;
  waits = λ fd x xs w e. (give-waits w.full x xs w refl e).0;
  breaks = λ fd x xs w e h. give-breaks w.full x xs w (λ k a. ground arith);
  apart = λ fd q w. (take_one_apart w q).0;
}

socket_draining : Draining (box (tx_cost false)) sockets (λ b. b.full)
socket_draining = record {
  accepts = λ fd x k xs w e. (give-accepts w.full x k xs w e).1;
  waits = λ fd x xs w e. (give-waits w.full x xs w refl e).1;
  apart = λ q w. (take_one_apart w q).1;
}

ft_sock_send_delivers_example :
    Delivered socket_stream socket_draining 5 a_context 3 (7 ∷ 8 ∷ 9 ∷ []) a_box
ft_sock_send_delivers_example =
    ft_sock_send_delivers socket_stream socket_draining 5 a_context 3 (7 ∷ 8 ∷ 9 ∷ []) a_box
      (omega arith)

multi_recv_halves_example :
    let d = multi_recv_sizes a_context in
    (2 ≤ d.comp_per_buf)
    × (d.comp_per_buf ≤ 64)
    × (d.comp_per_buf * d.opts.transfer_size ≤ d.rx_size / 2)
multi_recv_halves_example = multi_recv_halves a_context (omega arith) (omega arith)

-- Messages of 4 MiB.
abbrev large : Context
large = record a_context { opts = record a_context.opts { transfer_size = 2 ^ 22 } }

-- "a;;b" at the semicolons
abbrev a_list : Text
a_list = 97 ∷ 59 ∷ 59 ∷ 98 ∷ []

ft_split_and_alloc_lem_example :
    let r = ft_split_and_alloc (box (tx_cost false)) (some a_list) (some (59 ∷ [])) a_box in
    let dup = (box (tx_cost false)).malloc (length a_list + 1) a_box in
    let arr = (box (tx_cost false)).malloc (array_size (59 ∷ []) a_list + 1) dup.next in
    ((r.split ≡ null) × ((dup.ptr ≡ 0) ⊎ (arr.ptr ≡ 0)))
    ⊎ ((dup.ptr ≢ 0)
        × (arr.ptr ≢ 0)
        × (xs : List Text) × (r.split ≡ array xs (array_size (59 ∷ []) a_list))
        × (length xs ≡ array_size (59 ∷ []) a_list)
        × Joins (59 ∷ []) xs a_list)
ft_split_and_alloc_lem_example = ft_split_and_alloc_lem (box (tx_cost false)) a_list (59 ∷ []) a_box

split_run :
    ft_split_and_alloc (box (tx_cost false)) (some a_list) (some (59 ∷ [])) a_box
    ≡ record { split = array ((97 ∷ []) ∷ [] ∷ (98 ∷ []) ∷ []) 3; next = a_box }
unfolding ft_split_and_alloc checked fill_array token rest array_size
split_run = refl
