-- ===== src/Pids.antt =====
-- `NodeWorker._pid_to_host_map` (linux_net/worker/node.py): a dict from pids to hosts.
use linux_net_x.Base.{
  ℕ, suc, String, ◌≡◌, ◌≢◌, refl, ap, sym, ◌⊎◌, Option, none, some, List, [], ◌∷◌, ◌++◌, In, All,
  All-append, All-map, All-at, ◌∙◌, ◌==◌, if◌then◌else◌, arith, inl, inr, Bool-cases, length,
}

abbrev pub Pids : Type 0
Pids = List (ℕ × String)

-- `d.get(pid)`
unfoldable pub pid_get : ℕ → Pids → Option String
pid_get pid [] = none
pid_get pid ((p, h) ∷ l) = if p == pid then some h else pid_get pid l

-- `d.pop(pid)`
unfoldable pub pid_pop : ℕ → Pids → Pids
pid_pop pid [] = []
pid_pop pid ((p, h) ∷ l) = if p == pid then l else (p, h) ∷ pid_pop pid l

-- `d[pid] = host`: a new key goes to the end, an old one keeps its place.
unfoldable pub pid_set : ℕ → String → Pids → Pids
pid_set pid host [] = (pid, host) ∷ []
pid_set pid host ((p, h) ∷ l) = if p == pid then (p, host) ∷ l else (p, h) ∷ pid_set pid host l

-- No pid and no host stands twice.
abbrev pub Unique : Pids → Type 0
Unique [] = Unit
Unique ((p, h) ∷ l) = All (λ e. (e.0 ≢ p) × (e.1 ≢ h)) l × Unique l

abbrev pub NewPid : ℕ → Pids → Type 0
NewPid pid = All (λ e. e.0 ≢ pid)

pub pid_get_of_new : (pid : ℕ) (l : Pids) → NewPid pid l → pid_get pid l ≡ none
unfolding pid_get
pid_get_of_new pid [] h = refl
pid_get_of_new pid ((p, k) ∷ l) h = ground (arith, h.0, pid_get_of_new pid l h.1)

pub pid_set_of_new :
    (pid : ℕ) (host : String) (l : Pids) → NewPid pid l → pid_set pid host l ≡ l ++ (pid, host) ∷ []
unfolding pid_set
pid_set_of_new pid host [] h = refl
pid_set_of_new pid host ((p, k) ∷ l) h = ground (arith, h.0, pid_set_of_new pid host l h.1)

pub Unique-snoc :
    (pid : ℕ) (host : String) (l : Pids)
    → NewPid pid l
    → All (λ e. e.1 ≢ host) l
    → Unique l
    → Unique (l ++ (pid, host) ∷ [])
Unique-snoc pid host [] n o u = (tt, tt)
Unique-snoc pid host ((p, h) ∷ l) n o u = (
  All-append _ l _ u.0 ((λ e. n.0 (sym e), λ e. o.0 (sym e)), tt),
  Unique-snoc pid host l n.1 o.1 u.1,
)

module _ (P : ℕ × String → Type 0) where
  pub All-pid_pop : (pid : ℕ) (l : Pids) → All P l → All P (pid_pop pid l)
  unfolding pid_pop
  All-pid_pop pid [] h = tt
  All-pid_pop pid ((p, k) ∷ l) h = elim (Bool-cases (p == pid)) [
    | inl e ↦ rw e h.1
    | inr e ↦ rw e (h.0, All-pid_pop pid l h.1)
  ]

pub Unique-pid_pop : (pid : ℕ) (l : Pids) → Unique l → Unique (pid_pop pid l)
unfolding pid_pop
Unique-pid_pop pid [] u = tt
Unique-pid_pop pid ((p, k) ∷ l) u = elim (Bool-cases (p == pid)) [
  | inl e ↦ rw e u.1
  | inr e ↦ rw e (All-pid_pop _ pid l u.0, Unique-pid_pop pid l u.1)
]

pub length-pid_pop :
    (pid : ℕ) (l : Pids) (h : String)
    → pid_get pid l ≡ some h
    → suc (length (pid_pop pid l)) ≡ length l
unfolding pid_get pid_pop
length-pid_pop pid [] h e = cc
length-pid_pop pid ((p, k) ∷ l) h e = ground (arith, length-pid_pop pid l h)

pub In-of_pid_get : (pid : ℕ) (l : Pids) (h : String) → pid_get pid l ≡ some h → In (pid, h) l
unfolding pid_get
In-of_pid_get pid [] h e = cc
In-of_pid_get pid ((p, k) ∷ l) h e = elim (Bool-cases (p == pid)) [
  | inl q ↦ inl (ground arith)
  | inr q ↦ inr (In-of_pid_get pid l h (rw q at e))
]

-- What is left after a pop has another pid and another host than the entry popped.
pub others_after_pop :
    (pid : ℕ) (l : Pids) (h : String)
    → Unique l
    → pid_get pid l ≡ some h
    → All (λ e. (e.0 ≢ pid) × (e.1 ≢ h)) (pid_pop pid l)
unfolding pid_get pid_pop
others_after_pop pid [] h u e = tt
others_after_pop pid ((p, k) ∷ l) h u e = elim (Bool-cases (p == pid)) [
  | inl q ↦
      let pe : p ≡ pid = ground arith in
      let he : k ≡ h = ground arith in
      rw q (All-map _ _ l (λ x n. (λ z. n.0 (z ∙ sym pe), λ z. n.1 (z ∙ sym he))) u.0)
  | inr q ↦
      let e' : pid_get pid l ≡ some h = rw q at e in
      let apart = All-at _ (pid, h) l u.0 (In-of_pid_get pid l h e') in
      rw q ((λ z. ground arith, λ z. apart.1 (sym z)), others_after_pop pid l h u.1 e')
]

pub pid_get-snoc :
    (k pid : ℕ) (host : String) (l : Pids)
    → k ≢ pid
    → pid_get k (l ++ (pid, host) ∷ []) ≡ pid_get k l
unfolding pid_get
pid_get-snoc k pid host [] ne = ground arith
pid_get-snoc k pid host ((p, h) ∷ l) ne = ground (arith, pid_get-snoc k pid host l ne)

pub pid_get-pop :
    (k pid : ℕ) (l : Pids)
    → Unique l
    → (pid_get k (pid_pop pid l) ≡ none) ⊎ (pid_get k (pid_pop pid l) ≡ pid_get k l)
unfolding pid_get pid_pop
pid_get-pop k pid [] u = inl refl
pid_get-pop k pid ((p, h) ∷ l) u = elim (Bool-cases (p == pid)) [
  | inl q ↦ rw q (elim (Bool-cases (p == k)) [
    | inl z ↦ inl (
        pid_get_of_new k l
          (All-map _ _ l (λ x n w. n.0 (w ∙ sym (let e : p ≡ k = ground arith in e))) u.0))
    | inr z ↦ rw z (inr refl)
  ])
  | inr q ↦ rw q (elim (Bool-cases (p == k)) [
    | inl z ↦ rw z (inr refl)
    | inr z ↦ rw z (pid_get-pop k pid l u.1)
  ])
]

-- A host stands under one pid.
pub In-Unique :
    (p q : ℕ) (host : String) (l : Pids) → Unique l → In (p, host) l → In (q, host) l → p ≡ q
In-Unique p q host [] u m n = absurd m
In-Unique p q host ((k, h) ∷ l) u (inl e) (inl f) = ap (λ (x : ℕ × String). x.0) (e ∙ sym f)
In-Unique p q host ((k, h) ∷ l) u (inl e) (inr n) =
    absurd ((All-at _ (q, host) l u.0 n).1 (ap (λ (x : ℕ × String). x.1) e))
In-Unique p q host ((k, h) ∷ l) u (inr m) (inl f) =
    absurd ((All-at _ (p, host) l u.0 m).1 (ap (λ (x : ℕ × String). x.1) f))
In-Unique p q host ((k, h) ∷ l) u (inr m) (inr n) = In-Unique p q host l u.1 m n
