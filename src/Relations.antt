-- ===== src/Relations.antt =====
-- Any number of steps of a relation on states.
use enterprise_ai_procuremen.Prelude.{◌≡◌, sym, subst}

pub data Chain {S : Type 0} (R : S → S → Type 0) (s : S) : S → Type 0 where
  here : Chain R s s
  next : {t u : S} → Chain R s t → R t u → Chain R s u

module _ {S : Type 0} {R : S → S → Type 0} where
  pub Chain-trans : {s t u : S} → Chain R s t → Chain R t u → Chain R s u
  Chain-trans p here = p
  Chain-trans p (next q st) = next (Chain-trans p q) st

  pub stays : {s t : S} → t ≡ s → Chain R s t
  stays {s} e = subst (Chain R s) (sym e) here

  pub moves : {s t u : S} → t ≡ u → R s u → Chain R s t
  moves {s} e p = subst (Chain R s) (sym e) (next here p)
