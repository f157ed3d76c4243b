-- ===== src/Linux/Plan/Layers.antt =====
-- What `layer_mounts` of bwrap_runner.rs masks: the denied paths below a writable root, and those
-- below no writable path.
use mathlib.Core.List.{Memᴰ}
use mathlib.Core.Path.{subst}
use rattler_sandbox.Prelude.{
  String, ◌≡◌, refl, true, false, ◌||◌, Option, none, some, List, [], ◌∷◌, ◌++◌, arith, any, filter,
  mem-filter, mem-map, mem-sort, Bool-cases, inl, inr,
}
use rattler_sandbox.Paths.Std.{PathBuf, starts_with, strip_prefix, push}
use rattler_sandbox.Policy.Types.{WritableRoot}
use rattler_sandbox.Linux.Host.{Host}
use rattler_sandbox.Linux.Types.{BwrapArgs, only_args, Result, ok, err, for_each}
use rattler_sandbox.Linux.Returns.{Returns, Returns-bind, Returns-imp, for_each-keeps}
use rattler_sandbox.Linux.Walk.{remap_paths_for_symlink_target}
use rattler_sandbox.Linux.Masks.{sort_by_depth}
use rattler_sandbox.Linux.Masks.Grows.{Extends, Extends-trans, Extends-refl}
use rattler_sandbox.Linux.Masks.Denied.{IsMaskedAfter-first}
use rattler_sandbox.Linux.Plan.{
  remapped, nested_unreadable_roots, mount_writable_root, unreadable_ancestors_of_writable_roots,
  rootless_unreadable_roots, sorted_writable_roots, layer_mounts, allowed_write_paths_of,
}
use rattler_sandbox.Linux.Plan.Order.{
  IsHidden, IsHidden-Extends, IsHiddenInRoot, link_of, mount_writable_root-Extends,
  mount_writable_root-hides, denied_loop-hides, denied_loop-Extends, bind_target, bind_args,
}

module _ (h : Host) where
  -- Where a path below a root lies once the root's link is followed.
  abbrev pub followed : Option PathBuf → PathBuf → PathBuf → PathBuf
  followed none root p = p
  followed (some target) root p = elim (strip_prefix p root) [
    | none ↦ p
    | some relative ↦ push target relative
  ]

  mem-nested :
      (us : List PathBuf) (r : WritableRoot) (p : PathBuf)
      → Memᴰ p us
      → starts_with p r.root ≡ true
      → Memᴰ (followed (link_of h r) r.root p) (nested_unreadable_roots h us r.root (link_of h r))
  unfolding nested_unreadable_roots sort_by_depth remap_paths_for_symlink_target
  mem-nested us r p m c =
      mem-sort _ _ _ (by_link (link_of h r) (mem-filter (λ q. starts_with q r.root) p us m c))
    where
      by_link :
          (o : Option PathBuf)
          → Memᴰ p (filter (λ q. starts_with q r.root) us)
          → Memᴰ (followed o r.root p) (remapped h o r.root (filter (λ q. starts_with q r.root) us))
      by_link none k = k
      by_link (some target) k = mem-map (λ q. followed (some target) r.root q) p _ k

  module _ (us auto : List PathBuf) (roots : List WritableRoot) where
    abbrev pub allowed_paths : List PathBuf
    allowed_paths = allowed_write_paths_of h roots

    -- A denied path that lies below a writable root is masked behind the bind of that root.
    -- One that lies below no writable path is masked behind `args`.
    pub record IsDeniedBy (args : List String) (p : PathBuf) (b : BwrapArgs) : Type 0 where
      pub in_root :
          (r : WritableRoot)
          → Memᴰ r roots
          → starts_with p r.root ≡ true
          → IsHiddenInRoot h allowed_paths r (followed (link_of h r) r.root p) args b.args
      pub outside :
          any (λ root. starts_with p root) allowed_paths ≡ false
          → IsHidden h allowed_paths args p b.args

    mounts-Extends :
        (b : BwrapArgs) (rs : List WritableRoot)
        → Returns
            (λ c. Extends b.args c.args)
            (for_each (mount_writable_root h us auto allowed_paths) b rs)
    mounts-Extends b rs =
        for_each-keeps _ (λ c. Extends b.args c.args)
          (λ s r e.
            Returns-imp (λ c. Extends s.args c.args) (λ c. Extends b.args c.args) _
              (λ c d. Extends-trans b.args s.args c.args e d)
              (mount_writable_root-Extends h us auto allowed_paths r s))
          b rs (Extends-refl b.args)

    in_root-later :
        (r : WritableRoot) (p : PathBuf) (a a' l l' : List String)
        → Extends a a'
        → IsHiddenInRoot h allowed_paths r p a' l
        → Extends l l'
        → IsHiddenInRoot h allowed_paths r p a l'
    in_root-later r p a a' l l' e k f = record {
      upto = k.upto;
      later = Extends-trans a a' k.upto e k.later;
      bound = Extends-trans (k.upto ++ bind_args h (bind_target h r)) l l' k.bound f;
      hidden = IsHidden-Extends h allowed_paths _ p l l' k.hidden f;
    }

    abbrev HiddenBehind : WritableRoot → PathBuf → List String → BwrapArgs → Type 0
    HiddenBehind r p args b =
        IsHiddenInRoot h allowed_paths r (followed (link_of h r) r.root p) args b.args

    mounts-hide :
        (p : PathBuf)
        → Memᴰ p us
        → (r : WritableRoot) (rs : List WritableRoot) → Memᴰ r rs
        → starts_with p r.root ≡ true
        → (b : BwrapArgs)
        → Returns
            (HiddenBehind r p b.args)
            (for_each (mount_writable_root h us auto allowed_paths) b rs)
    unfolding for_each
    mounts-hide p m r [] k c b = elim k [ ]
    mounts-hide p m r (x ∷ rs) (Memᴰ.head e) c b =
        Returns-bind (HiddenBehind r p b.args) (HiddenBehind r p b.args) _ _
          (subst
            (λ y.
              Returns (HiddenBehind r p b.args) (mount_writable_root h us auto allowed_paths b y))
            e (mount_writable_root-hides h us auto allowed_paths r _ (mem-nested us r p m c) b))
          (λ s hid.
            Returns-imp (λ t. Extends s.args t.args) (HiddenBehind r p b.args) _
              (λ t f. in_root-later r _ b.args b.args s.args t.args (Extends-refl b.args) hid f)
              (mounts-Extends s rs))
    mounts-hide p m r (x ∷ rs) (Memᴰ.tail k) c b =
        Returns-bind (λ s. Extends b.args s.args) (HiddenBehind r p b.args) _ _
          (mount_writable_root-Extends h us auto allowed_paths x b)
          (λ s e.
            Returns-imp (HiddenBehind r p s.args) (HiddenBehind r p b.args) _
              (λ t hid. in_root-later r _ b.args s.args t.args t.args e hid (Extends-refl t.args))
              (mounts-hide p m r rs k c s))

    layer_mounts-in_root :
        (args : List String) (p : PathBuf)
        → Memᴰ p us
        → (r : WritableRoot) → Memᴰ r roots
        → starts_with p r.root ≡ true
        → Returns (HiddenBehind r p args) (layer_mounts h args us auto roots)
    unfolding layer_mounts sorted_writable_roots
    layer_mounts-in_root args p m r k c =
        Returns-bind (λ s. Extends args s.args) (HiddenBehind r p args) _ _
          (denied_loop-Extends h allowed_paths (only_args args) _)
          (λ s e.
            Returns-bind (HiddenBehind r p s.args) (HiddenBehind r p args) _ _
              (mounts-hide p m r _ (mem-sort _ r roots k) c s)
              (λ t hid.
                Returns-imp (λ u. Extends t.args u.args) (HiddenBehind r p args) _
                  (λ u f. in_root-later r _ args s.args t.args u.args e hid f)
                  (denied_loop-Extends h allowed_paths t _)))

    abbrev HiddenOutside : PathBuf → List String → BwrapArgs → Type 0
    HiddenOutside p args b = IsHidden h allowed_paths args p b.args

    -- Above a writable path the denied path is hidden before the mounts,
    layer_mounts-ancestor :
        (args : List String) (p : PathBuf)
        → Memᴰ p us
        → any (λ root. starts_with p root) allowed_paths ≡ false
        → any (λ root. starts_with root p) allowed_paths ≡ true
        → Returns (HiddenOutside p args) (layer_mounts h args us auto roots)
    unfolding layer_mounts unreadable_ancestors_of_writable_roots sort_by_depth
    layer_mounts-ancestor args p m below above =
        Returns-bind (HiddenOutside p args) (HiddenOutside p args) _ _
          (denied_loop-hides h allowed_paths _ p
            (mem-sort _ p _ (mem-filter _ p us m (ground (arith, below, above)))) (only_args args))
          (λ s hid.
            Returns-bind (λ t. Extends s.args t.args) (HiddenOutside p args) _ _
              (mounts-Extends s _)
              (λ t e.
                Returns-imp (λ u. Extends t.args u.args) (HiddenOutside p args) _
                  (λ u f.
                    IsHidden-Extends h allowed_paths args p s.args u.args hid
                      (Extends-trans s.args t.args u.args e f))
                  (denied_loop-Extends h allowed_paths t _)))

    neither :
        (p : PathBuf) (roots : List PathBuf)
        → any (λ root. starts_with p root) roots ≡ false
        → any (λ root. starts_with root p) roots ≡ false
        → any (λ root. starts_with p root || starts_with root p) roots ≡ false
    neither p [] a b = refl
    neither p (x ∷ xs) a b = ground (arith, neither p xs)

    -- and apart from all of them after the mounts.
    layer_mounts-rootless :
        (args : List String) (p : PathBuf)
        → Memᴰ p us
        → any (λ root. starts_with p root) allowed_paths ≡ false
        → any (λ root. starts_with root p) allowed_paths ≡ false
        → Returns (HiddenOutside p args) (layer_mounts h args us auto roots)
    unfolding layer_mounts rootless_unreadable_roots sort_by_depth
    layer_mounts-rootless args p m below above =
        Returns-bind (λ s. Extends args s.args) (HiddenOutside p args) _ _
          (denied_loop-Extends h allowed_paths (only_args args) _)
          (λ s e.
            Returns-bind (λ t. Extends s.args t.args) (HiddenOutside p args) _ _
              (mounts-Extends s _)
              (λ t f.
                Returns-imp (HiddenOutside p t.args) (HiddenOutside p args) _
                  (λ u (q, k). (
                    q,
                    λ there.
                        IsMaskedAfter-first h args t.args p u.args
                          (Extends-trans args s.args t.args e f) (k there),
                  ))
                  (denied_loop-hides h allowed_paths _ p
                    (mem-sort _ p _
                      (mem-filter _ p us m (ground (arith, neither p allowed_paths below above))))
                    t)))

    pub layer_mounts-IsDeniedBy :
        (args : List String) (p : PathBuf)
        → Memᴰ p us
        → Returns (IsDeniedBy args p) (layer_mounts h args us auto roots)
    layer_mounts-IsDeniedBy args p m =
        from_each (layer_mounts h args us auto roots) (layer_mounts-in_root args p m) (λ below.
          elim (Bool-cases (any (λ root. starts_with root p) allowed_paths)) [
            | inl above ↦ layer_mounts-ancestor args p m below above
            | inr above ↦ layer_mounts-rootless args p m below above
          ])
      where
        from_each :
            (o : Result BwrapArgs)
            → ((r : WritableRoot)
                → Memᴰ r roots
                → starts_with p r.root ≡ true
                → Returns (HiddenBehind r p args) o)
            → (any (λ root. starts_with p root) allowed_paths ≡ false
                → Returns (HiddenOutside p args) o)
            → Returns (IsDeniedBy args p) o
        from_each (ok b) f g = record { in_root = f; outside = g }
        from_each (err e) f g = tt
