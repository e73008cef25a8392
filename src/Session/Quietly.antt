-- ===== src/Session/Quietly.antt =====
-- Commands that return without a fault and leave the list of clients as it is.
use csse2310_assignment.Base.{arith, ◌≤◌, ◌≡◌, refl}
use csse2310_assignment.Libc.{Text}
use csse2310_assignment.World.{
  Ptr, ServerStats, World, Outcome, done, fault, out_of_fuel, M, pure, ◌>>=◌, Ensures, Ensures-bind,
  print,
}
use csse2310_assignment.ClientList.Chain.{Cells}
use csse2310_assignment.ServerUtils.{change_stats}
use csse2310_assignment.Session.{IsServing, named_at, left_at, Quiet}
use csse2310_assignment.Session.Frame.{Quiet-refl, Quiet-trans, Quiet-IsServing}

-- From a world whose list holds `xs` the command returns a result that satisfies `P`.
pub record Quietly {A : Type 0} (xs : Cells) (P : A → Type 0) (m : M A) : Type 0 where
  pub run : (w : World) → IsServing w xs → Ensures (λ a w'. P a × Quiet w w') (m w)

abbrev pub Anything : {A : Type 0} → A → Type 0
Anything a = Unit

Ensures-weaken :
    {A : Type 0} (P Q : A → World → Type 0) (r : Outcome A)
    → ((a : A) (w : World) → P a w → Q a w)
    → Ensures P r
    → Ensures Q r
Ensures-weaken P Q (done a w) f h = f a w h
Ensures-weaken P Q fault f h = absurd h
Ensures-weaken P Q out_of_fuel f h = absurd h

pub Ensures-done :
    {A : Type 0} {P : A → World → Type 0} (r : Outcome A)
    → Ensures P r
    → (a : A) × (w' : World) × (r ≡ done a w') × P a w'
Ensures-done (done a w') h = (a, w', refl, h)
Ensures-done fault h = absurd h
Ensures-done out_of_fuel h = absurd h

-- The list, the password and the names are as they were; the rest may differ.
pub Quiet-same :
    (w w' : World)
    → ((a : Ptr) → named_at w'.threads a ≡ named_at w.threads a)
    → ((a : Ptr) → left_at w'.threads a ≤ left_at w.threads a)
    → w'.nodes ≡ w.nodes
    → w'.clients.head ≡ w.clients.head
    → w'.fresh ≡ w.fresh
    → w'.clients.password ≡ w.clients.password
    → Quiet w w'
Quiet-same w w' same left nodes head fresh password = record {
  nodes = nodes;
  head = head;
  fresh = fresh;
  password = password;
  names_kept = same;
  left_le = left;
}

module _ {xs : Cells} where
  pub Quietly-bind :
      {A B : Type 0} (P : A → Type 0) (Q : B → Type 0) (m : M A) (k : A → M B)
      → Quietly xs P m
      → ((a : A) → P a → Quietly xs Q (k a))
      → Quietly xs Q (m >>= k)
  Quietly-bind P Q m k first next = record {
    run = λ w s.
        Ensures-bind (λ a w'. P a × Quiet w w') (λ b w'. Q b × Quiet w w') (m w) k (first.run w s)
          λ a u (p, q).
            Ensures-weaken (λ b w'. Q b × Quiet u w') (λ b w'. Q b × Quiet w w') (k a u)
              (λ b v (p', q'). (p', Quiet-trans q q')) ((next a p).run u (Quiet-IsServing q s));
  }

  -- One command and then another, whatever the first returns.
  pub Quietly-then :
      {A B : Type 0} (m : M A) (k : A → M B)
      → Quietly xs Anything m
      → ((a : A) → Quietly xs Anything (k a))
      → Quietly xs Anything (m >>= k)
  Quietly-then m k first next = Quietly-bind Anything Anything m k first λ a h. next a

  pub Quietly-pure : {A : Type 0} (P : A → Type 0) (a : A) → P a → Quietly xs P (pure a)
  Quietly-pure P a p = record { run = λ w s. (p, Quiet-refl w) }

  pub Quietly-print : (text : Text) → Quietly xs Anything (print text)
  Quietly-print text = record {
    run = λ w s. (tt, Quiet-same w _ (λ a. refl) (λ a. omega arith) refl refl refl refl);
  }

  pub Quietly-change_stats : (f : ServerStats → ServerStats) → Quietly xs Anything (change_stats f)
  Quietly-change_stats f = record {
    run = λ w s. (tt, Quiet-same w _ (λ a. refl) (λ a. omega arith) refl refl refl refl);
  }
