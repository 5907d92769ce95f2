-- ===== src/Singleton/Alive.antt =====
-- Which objects of hdr/bren/Singleton.hpp are alive.
use brenlib.Prelude.{
  ℕ, ◌≤◌, Bool, true, false, ◌==◌, not, ◌&&◌, ltb, List, [], ◌∷◌, Option, none, some, ◌≡◌, refl,
  arith, Option-cases, inl, inr,
}
use brenlib.Prelude.Text.{elem}
use brenlib.Singleton.{Static, initial, get_instance, close, is_constructed}

pub data Request : Type 0 where
  instance_call close_call : Request

unfoldable pub run : List Request → Static → Static
run [] s = s
run (instance_call ∷ rs) s = run rs (get_instance s).0
run (close_call ∷ rs) s = run rs (close s)

-- An object that was made and not deleted is alive.
pub is_alive : Static → ℕ → Bool
is_alive s p = ltb p s.made && not (elem p s.deleted)

abbrev holds : Option ℕ → ℕ → Bool
holds none p = false
holds (some q) p = p == q

-- The pointer is to the only object that is alive, and each object has its own call of `close`.
pub record IsSingle (s : Static) : Type 0 where
  pub alive_is : (p : ℕ) → is_alive s p ≡ holds s.instance_a p
  pub were_made : (p : ℕ) → s.made ≤ p → elem p s.deleted ≡ false
  pub registered : s.at_exit ≡ s.made

get_instance-IsSingle : (s : Static) → IsSingle s → IsSingle (get_instance s).0
unfolding get_instance is_alive
get_instance-IsSingle s h = elim (Option-cases s.instance_a) [
  | inl e ↦ record {
    alive_is = λ p. ground (arith, h.alive_is p, h.were_made p);
    were_made = λ p l. ground (arith, h.were_made p);
    registered = ground (arith, h.registered);
  }
  | inr (q, e) ↦ record {
    alive_is = λ p. ground (arith, h.alive_is p);
    were_made = λ p l. ground (arith, h.were_made p);
    registered = ground (arith, h.registered);
  }
]

close-IsSingle : (s : Static) → IsSingle s → IsSingle (close s)
unfolding close is_alive
close-IsSingle s h = elim (Option-cases s.instance_a) [
  | inl e ↦ record {
    alive_is = λ p. ground (arith, h.alive_is p);
    were_made = λ p l. ground (arith, h.were_made p);
    registered = ground (arith, h.registered);
  }
  | inr (q, e) ↦ record {
    alive_is = λ p. ground (arith, h.alive_is p);
    were_made = λ p l. ground (arith, h.were_made p, h.alive_is p);
    registered = ground (arith, h.registered);
  }
]

run-kept : (rs : List Request) (s : Static) → IsSingle s → IsSingle (run rs s)
unfolding run
run-kept [] s h = h
run-kept (instance_call ∷ rs) s h = run-kept rs (get_instance s).0 (get_instance-IsSingle s h)
run-kept (close_call ∷ rs) s h = run-kept rs (close s) (close-IsSingle s h)

initial-IsSingle : IsSingle initial
unfolding is_alive
initial-IsSingle = record {
  alive_is = λ p. ground arith;
  were_made = λ p l. refl;
  registered = refl;
}

-- After any calls of `instance` and `close` the pointer is to the only object that is alive, if there
-- is one, and a call of `close` is registered for each object that was made.
pub run-IsSingle : (rs : List Request) → IsSingle (run rs initial)
run-IsSingle rs = run-kept rs initial initial-IsSingle

again_of :
    (s : Static)
    → IsSingle s
    → (get_instance (get_instance s).0 ≡ get_instance s)
      × (is_constructed (get_instance s).0 ≡ true)
      × (is_alive (get_instance s).0 (get_instance s).1 ≡ true)
unfolding get_instance is_constructed is_alive
again_of s h = elim (Option-cases s.instance_a) [
  | inl e ↦ (ground arith, ground arith, ground (arith, h.were_made s.made))
  | inr (q, e) ↦ (ground arith, ground arith, ground (arith, h.alive_is q))
]

-- After any calls, `instance` gives an object that is alive, and gives it again when it is called
-- again, without making another.
pub get_instance-again :
    (rs : List Request)
    → (get_instance (get_instance (run rs initial)).0 ≡ get_instance (run rs initial))
      × (is_constructed (get_instance (run rs initial)).0 ≡ true)
      × (is_alive (get_instance (run rs initial)).0 (get_instance (run rs initial)).1 ≡ true)
get_instance-again rs = again_of (run rs initial) (run-IsSingle rs)
