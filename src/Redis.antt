-- ===== src/Redis.antt =====
-- The Redis hashes that the program keeps its state in, as an interface: the server is not part of
-- the repository. A client takes a `Hash` as a parameter.
pub mod Table
use linux_net_x.Base.{
  String, ◌≡◌, ◌≢◌, ◌∙◌, refl, ◌↔◌, Bool, true, false, Option, none, some, List, [], ◌∷◌, map, keep,
  In, All, str_eq, eq_iff, eq_refl, if◌then◌else◌, arith, inl, inr,
}

-- The commands HGET, HSET, HDEL, HSETNX and a full HSCAN iteration on one hash, as documented.
pub record Hash (V : Type 0) : Type 1 where
  pub Table : Type 0
  pub hget : Table → String → Option V
  pub hset : Table → String → V → Table
  pub hdel : Table → String → Table
  pub hsetnx : Table → String → V → Table × Bool
  pub hscan : Table → List (String × V)
  pub hget-hset :
      (t : Table) (k j : String) (v : V)
      → hget (hset t k v) j ≡ (if str_eq k j then some v else hget t j)
  pub hget-hdel :
      (t : Table) (k j : String) → hget (hdel t k) j ≡ (if str_eq k j then none else hget t j)
  pub hsetnx_taken :
      (t : Table) (k : String) (v w : V) → hget t k ≡ some w → hsetnx t k v ≡ (t, false)
  pub hsetnx_free :
      (t : Table) (k : String) (v : V) → hget t k ≡ none → hsetnx t k v ≡ (hset t k v, true)
  pub hget_of_hscan : (t : Table) (k : String) (v : V) → In (k, v) (hscan t) → hget t k ≡ some v
  pub hscan_of_hget : (t : Table) (k : String) (v : V) → hget t k ≡ some v → In (k, v) (hscan t)

module _ {V : Type 0} (H : Hash V) where
  open H use {Table, hget, hset, hdel, hget-hset, hget-hdel}

  -- `pipe.hdel(key, *fields)`
  unfoldable pub hdel_all : Table → List String → Table
  hdel_all t [] = t
  hdel_all t (k ∷ ks) = hdel_all (hdel t k) ks

  pub hget-hset_self : (t : Table) (k : String) (v : V) → hget (hset t k v) k ≡ some v
  hget-hset_self t k v = simp (hget-hset, eq_refl)

  pub hget-hset_ne : (t : Table) (k j : String) (v : V) → k ≢ j → hget (hset t k v) j ≡ hget t j
  hget-hset_ne t k j v ne = rw hget-hset (ground (arith, eq_iff k j))

  pub hget-hdel_self : (t : Table) (k : String) → hget (hdel t k) k ≡ none
  hget-hdel_self t k = simp (hget-hdel, eq_refl)

  pub hget-hdel_ne : (t : Table) (k j : String) → k ≢ j → hget (hdel t k) j ≡ hget t j
  hget-hdel_ne t k j ne = rw hget-hdel (ground (arith, eq_iff k j))

  pub hget-hdel_all_ne :
      (t : Table) (ks : List String) (j : String)
      → All (λ k. k ≢ j) ks
      → hget (hdel_all t ks) j ≡ hget t j
  unfolding hdel_all
  hget-hdel_all_ne t [] j h = refl
  hget-hdel_all_ne t (k ∷ ks) j h = hget-hdel_all_ne (hdel t k) ks j h.1 ∙ hget-hdel_ne t k j h.0

  hdel_all_keeps_none :
      (t : Table) (ks : List String) (j : String) → hget t j ≡ none → hget (hdel_all t ks) j ≡ none
  unfolding hdel_all
  hdel_all_keeps_none t [] j h = h
  hdel_all_keeps_none t (k ∷ ks) j h =
      hdel_all_keeps_none (hdel t k) ks j (rw hget-hdel (ground arith))

  pub hget-hdel_all-In :
      (t : Table) (ks : List String) (j : String) → In j ks → hget (hdel_all t ks) j ≡ none
  unfolding hdel_all
  hget-hdel_all-In t [] j m = absurd m
  hget-hdel_all-In t (k ∷ ks) j (inl e) =
      hdel_all_keeps_none (hdel t k) ks j (rw e (hget-hdel_self t k))
  hget-hdel_all-In t (k ∷ ks) j (inr m) = hget-hdel_all-In (hdel t k) ks j m
