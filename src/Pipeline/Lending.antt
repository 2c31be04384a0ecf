-- ===== src/Pipeline/Lending.antt =====
-- What the pipeline does to the pool, as moves of the pool's users (ConnPool/Loans), where
-- connections get lost.
use mathlib.Core.Logic.{∥∥₁_elim, ∥∥₁_map, ∥∥₁_prop}
use mathlib.Core.List.{Perm, perm_middle, filter_map}
use mathlib.Core.List.Perm
use funkyd.Base.{ℕ, ◌≡◌, inl, inr, or_cons, Option-cases, List, ◌∷◌, ◌++◌}
use funkyd.Base.Time.{Time, Duration}
use funkyd.Base.Floats.{Floats}
use funkyd.Config.{Configuration}
use funkyd.Upstream.{Upstream}
use funkyd.ConnEntry.{ConnEntry, add_exchange}
use funkyd.ConnPool
use funkyd.ConnPool.{ConnPool, SortSlice, close_connection}
use funkyd.ConnPool.Lifecycle.{ids}
use funkyd.ConnPool.Loans.{Loan, Loan-perm, Loan-exchange, Loan-return, Loan-close, Loan-purge}

ids-cons :
    {F : Type 0} (ce : ConnEntry F) (l : List (ConnEntry F)) (gone : List ℕ)
    → Perm (ids l) gone
    → Perm (ids (ce ∷ l)) (or_cons ce.conn gone)
unfolding filter_map
ids-cons ce l gone p = elim (Option-cases ce.conn) [
  | inl nil ↦ rw nil p
  | inr (c, has) ↦ rw has (Perm.cons c p)
]

module _ {F : Type 0} (fl : Floats F) (sort_slice : SortSlice (Upstream F)) (config : Configuration)
    (us : List (Upstream F)) where
  -- Moves from a list of upstreams to the pool p, after which the connections l are lent, and
  -- others, which are lost: those of `gone`.
  pub record Lending (gone : List ℕ) (p : ConnPool F) (l : List (ConnEntry F)) : Type 0 where
    pub lost : List (ConnEntry F)
    pub gone_are : Perm (ids lost) gone
    pub loan : Loan fl sort_slice config us p (l ++ lost)

  abbrev pub Lends : List ℕ → ConnPool F → List (ConnEntry F) → Type 0
  Lends gone p l = ∥ Lending gone p l ∥₁

  -- A change of the loan, with the same connections lost.
  Lends-Loan :
      (gone : List ℕ) (p p' : ConnPool F) (l l' : List (ConnEntry F))
      → ((lost : List (ConnEntry F))
          → Loan fl sort_slice config us p (l ++ lost)
          → ∥ Loan fl sort_slice config us p' (l' ++ lost) ∥₁)
      → Lends gone p l
      → Lends gone p' l'
  Lends-Loan gone p p' l l' f t = ∥∥₁_elim t ∥∥₁_prop (λ v.
      ∥∥₁_map (f v.lost v.loan)
        (λ loan. record { lost = v.lost; gone_are = v.gone_are; loan = loan }))

  pub Lends-perm :
      (gone : List ℕ) (p : ConnPool F) (l l' : List (ConnEntry F))
      → Perm l l'
      → Lends gone p l
      → Lends gone p l'
  Lends-perm gone p l l' e =
      Lends-Loan gone p p l l'
        (λ lost v. ∣ Loan-perm fl sort_slice config us p _ _ (Perm.append_right lost e) v ∣₁)

  -- The first connection is lost.
  pub Lends-lose :
      (gone : List ℕ) (p : ConnPool F) (ce : ConnEntry F) (l : List (ConnEntry F))
      → Lends gone p (ce ∷ l)
      → Lends (or_cons ce.conn gone) p l
  Lends-lose gone p ce l t = ∥∥₁_map t (λ v. record {
    lost = ce ∷ v.lost;
    gone_are = ids-cons ce v.lost gone v.gone_are;
    loan = Loan-perm fl sort_slice config us p _ _ (Perm.symm (perm_middle l v.lost)) v.loan;
  })

  pub Lends-exchange :
      (gone : List ℕ) (rtt : Duration) (p : ConnPool F) (ce : ConnEntry F) (l : List (ConnEntry F))
      → Lends gone p (ce ∷ l)
      → Lends gone p (add_exchange config rtt ce ∷ l)
  Lends-exchange gone rtt p ce l =
      Lends-Loan gone p p _ _ (λ lost. Loan-exchange fl sort_slice config us rtt p ce (l ++ lost))

  pub Lends-return :
      (gone : List ℕ) (now : Time) (p : ConnPool F) (ce : ConnEntry F) (l : List (ConnEntry F))
      → Lends gone p (ce ∷ l)
      → Lends gone (ConnPool.add fl sort_slice config now ce p).0 l
  Lends-return gone now p ce l =
      Lends-Loan gone p _ _ l (λ lost. Loan-return fl sort_slice config us now p ce (l ++ lost))

  pub Lends-close :
      (gone : List ℕ) (now : Time) (p : ConnPool F) (ce : ConnEntry F) (l : List (ConnEntry F))
      → Lends gone p (ce ∷ l)
      → Lends gone (close_connection fl sort_slice config now ce p) l
  Lends-close gone now p ce l =
      Lends-Loan gone p _ _ l (λ lost. Loan-close fl sort_slice config us now p ce (l ++ lost))

  pub Lends-purge :
      (gone : List ℕ) (now : Time) (p : ConnPool F) (xs : List (ConnEntry F)) (ce : ConnEntry F)
      (ys l : List (ConnEntry F))
      → p.closing ≡ xs ++ ce ∷ ys
      → Lends gone p l
      → Lends gone
          (close_connection fl sort_slice config now ce (record p { closing = xs ++ ys }))
          l
  Lends-purge gone now p xs ce ys l e =
      Lends-Loan gone p _ l l
        (λ lost v. ∣ Loan-purge fl sort_slice config us now p xs ce ys (l ++ lost) e v ∣₁)
