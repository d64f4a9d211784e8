-- ===== src/Audit/Masking/Laws.antt =====
-- What a masked document tells of the document.
use linux_net_x.Base.{
  ℕ, String, ◌≡◌, refl, ap, ◌↔◌, arith, inl, inr, Bool, true, if◌then◌else◌, Bool-cases,
}
use linux_net_x.Audit.Masking.{
  Json, null, boolean, number, text, list, dict, Items, nil, item, Fields, end, field, redacted,
  is_sensitive, mask_sensitive_data, mask_items, mask_fields,
}

module _ (lower : String → String) where
  -- The same value, but for what stands under a sensitive key, at any depth.
  mutual
    pub data Alike : Json → Json → Type 0 where
      nulls : Alike null null
      booleans : (b : Bool) → Alike (boolean b) (boolean b)
      numbers : (n : ℕ) → Alike (number n) (number n)
      texts : (s : String) → Alike (text s) (text s)
      lists : {xs ys : Items} → AlikeItems xs ys → Alike (list xs) (list ys)
      dicts : {fs gs : Fields} → AlikeFields fs gs → Alike (dict fs) (dict gs)

    pub data AlikeItems : Items → Items → Type 0 where
      nils : AlikeItems nil nil
      items :
          {x y : Json} {xs ys : Items}
          → Alike x y
          → AlikeItems xs ys
          → AlikeItems (item x xs) (item y ys)

    pub data AlikeFields : Fields → Fields → Type 0 where
      ends : AlikeFields end end
      secret :
          (k : String) (v w : Json) {fs gs : Fields}
          → is_sensitive lower k ≡ true
          → AlikeFields fs gs
          → AlikeFields (field k v fs) (field k w gs)
      plain :
          (k : String) {v w : Json} {fs gs : Fields}
          → Alike v w
          → AlikeFields fs gs
          → AlikeFields (field k v fs) (field k w gs)

  abbrev mask : Json → Json
  mask = mask_sensitive_data lower

  mutual
    unfolding mask_sensitive_data

    pub hides : {a b : Json} → Alike a b → mask a ≡ mask b
    hides nulls = refl
    hides (booleans b) = refl
    hides (numbers n) = refl
    hides (texts s) = refl
    hides (lists h) = ap list (hides_items h)
    hides (dicts h) = ap dict (hides_fields h)

    hides_items : {xs ys : Items} → AlikeItems xs ys → mask_items lower xs ≡ mask_items lower ys
    hides_items nils = refl
    hides_items (items h hs) = cc (hides h, hides_items hs)

    hides_fields :
        {fs gs : Fields} → AlikeFields fs gs → mask_fields lower fs ≡ mask_fields lower gs
    hides_fields ends = refl
    hides_fields (secret k v w e h) = rw e (ap (field k redacted) (hides_fields h))
    hides_fields (plain k h hs) = cc (hides h, hides_fields hs)

  mutual
    unfolding mask_sensitive_data

    shows : (a b : Json) → mask a ≡ mask b → Alike a b
    shows null null h = nulls
    shows (boolean b) (boolean c) h = let e : b ≡ c = cc in rw e (booleans c)
    shows (number n) (number m) h = let e : n ≡ m = cc in rw e (numbers m)
    shows (text s) (text t) h = let e : s ≡ t = cc in rw e (texts t)
    shows (list xs) (list ys) h = lists (shows_items xs ys cc)
    shows (dict fs) (dict gs) h = dicts (shows_fields fs gs cc)
    shows _ _ h = cc

    shows_items : (xs ys : Items) → mask_items lower xs ≡ mask_items lower ys → AlikeItems xs ys
    shows_items nil nil h = nils
    shows_items (item x xs) (item y ys) h = items (shows x y cc) (shows_items xs ys cc)
    shows_items _ _ h = cc

    shows_fields :
        (fs gs : Fields) → mask_fields lower fs ≡ mask_fields lower gs → AlikeFields fs gs
    shows_fields end end h = ends
    shows_fields (field k v fs) (field j w gs) h =
        let e : k ≡ j = cc in
        let hs : mask_fields lower fs ≡ mask_fields lower gs = cc in
        let hv : (if is_sensitive lower k then redacted else mask v)
            ≡ (if is_sensitive lower j then redacted else mask w) =
          cc in
        rw (← e) (elim (Bool-cases (is_sensitive lower k)) [
          | inl s ↦ secret k v w s (shows_fields fs gs hs)
          | inr s ↦ plain k (shows v w (ground arith)) (shows_fields fs gs hs)
        ])
    shows_fields _ _ h = cc

  -- Two documents have the same mask exactly where they agree but for the values under sensitive
  -- keys, at any depth: the mask tells nothing of those values, and all of the rest.
  pub mask_sensitive_data-Alike :
      (a b : Json) → (mask_sensitive_data lower a ≡ mask_sensitive_data lower b) ↔ Alike a b
  mask_sensitive_data-Alike a b = (shows a b, hides)

  mutual
    unfolding mask_sensitive_data

    masked : (a : Json) → Alike (mask a) a
    masked null = nulls
    masked (boolean b) = booleans b
    masked (number n) = numbers n
    masked (text s) = texts s
    masked (list xs) = lists (masked_items xs)
    masked (dict fs) = dicts (masked_fields fs)

    masked_items : (xs : Items) → AlikeItems (mask_items lower xs) xs
    masked_items nil = nils
    masked_items (item x xs) = items (masked x) (masked_items xs)

    masked_fields : (fs : Fields) → AlikeFields (mask_fields lower fs) fs
    masked_fields end = ends
    masked_fields (field k v fs) = elim (Bool-cases (is_sensitive lower k)) [
      | inl s ↦ rw s (secret k redacted v s (masked_fields fs))
      | inr s ↦ rw s (plain k (masked v) (masked_fields fs))
    ]

  -- Masking again changes nothing.
  pub mask_twice : (a : Json) → mask (mask a) ≡ mask a
  mask_twice a = hides (masked a)
