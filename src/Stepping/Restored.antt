-- ===== src/Stepping/Restored.antt =====
-- The breakpoints of the user while src/debugger.c runs and steps the tracee: those that the debugger sets
-- for itself are gone again when it is done, and no other is lost.
use spray.Base.{
  ℕ, ◌≡◌, refl, ◌∙◌, Bool, true, false, some, arith, Bool-cases, Option-cases, inl, inr, List, [],
  ◌∷◌, ◌||◌, ◌==◌, if◌then◌else◌,
}
use spray.Ptrace.{Ptrace}
use spray.Ptrace.Memory.{IsPtrace}
use spray.Registers.{rbp, get_register_value}
use spray.Breakpoints.{
  Table, Target, get_breakpoint, lookup_breakpoint, enable_breakpoint, disable_breakpoint,
}
use spray.Breakpoints.Outcome.{active}
use spray.Stepping.{
  then_run, with_sys, set_pc, step_tracee, resume, Transient, return_address,
  set_return_address_breakpoint, remove_transient, continue_and_wait,
}
use spray.Stepping.Lines.{delete_breakpoints}
use spray.Stepping.Stable.{IsStable, Every, ends, Every-then_run, continue_and_wait-R}
use spray.Stepping.Access.{
  IsSteady, IsMapped, lookup-enable, lookup-disable, enable-IsMapped, disable-IsMapped,
}

module _ ⦃K : Ptrace⦄ ⦃H : Table⦄ (L : IsPtrace K) (access : ℕ → Bool) (A : IsSteady K access) where
  -- The same breakpoints are found, all of them at addresses that can be accessed.
  pub record SameBreakpoints (t t' : Target K H) : Type 0 where
    pub still_mapped : IsMapped access A t'
    pub lookups : (b : ℕ) → lookup_breakpoint t' b ≡ lookup_breakpoint t b

  pub record Restored (t t' : Target K H) : Type 0 where
    pub restored : IsMapped access A t → SameBreakpoints t t'

  Restored-refl : (t : Target K H) → Restored t t
  Restored-refl t = record { restored = λ m. record { still_mapped = m; lookups = λ b. refl } }

  Restored-trans : {t t' t'' : Target K H} → Restored t t' → Restored t' t'' → Restored t t''
  Restored-trans h k = record {
    restored = λ m.
        let a = h.restored m in
        let b = k.restored a.still_mapped in
        record { still_mapped = b.still_mapped; lookups = λ c. b.lookups c ∙ a.lookups c };
  }

  with_sys-Restored : (t : Target K H) (s : K.Sys) → Restored t (with_sys t s)
  unfolding lookup_breakpoint get_breakpoint active
  with_sys-Restored t s = record {
    restored = λ m. record {
      still_mapped = record { mapped = m.mapped; small = m.small };
      lookups = λ b. refl;
    };
  }

  over-Restored :
      (t t' : Target K H) (a : ℕ)
      → lookup_breakpoint t a ≡ true
      → Restored (step_tracee (disable_breakpoint t a).1) t'
      → Restored t (enable_breakpoint t' a).1
  unfolding step_tracee
  over-Restored t t' a on h = record {
    restored = λ m.
        let off = disable-IsMapped access A L t a m in
        let stepped = (with_sys-Restored (disable_breakpoint t a).1 _).restored off in
        let waited = h.restored stepped.still_mapped in
        record {
          still_mapped = enable-IsMapped access A L t' a waited.still_mapped;
          lookups = λ b. ground (
            arith,
            lookup-enable access A L t' a waited.still_mapped b,
            waited.lookups b,
            stepped.lookups b,
            lookup-disable access A L t a m b,
            m.mapped a on,
            on,
          );
        };
  }

  pub Restored-IsStable : IsStable Restored
  unfolding step_tracee resume set_pc
  Restored-IsStable = record {
    same = Restored-refl;
    then_also = Restored-trans;
    waited = λ t. with_sys-Restored t _;
    stepped = λ t. with_sys-Restored t _;
    resumed = λ t. with_sys-Restored t _;
    moved = λ t pc. with_sys-Restored t _;
    over = over-Restored;
  }

  abbrev pub mem : ℕ → List ℕ → Bool
  mem b [] = false
  mem b (a ∷ addrs) = (b == a) || mem b addrs

  -- The breakpoints of `t`, and perhaps some at the addresses, where `t` has none.
  pub record Extended (t : Target K H) (addrs : List ℕ) (t' : Target K H) : Type 0 where
    pub extended_mapped : IsMapped access A t'
    pub new : (b : ℕ) → mem b addrs ≡ true → lookup_breakpoint t b ≡ false
    pub others : (b : ℕ) → mem b addrs ≡ false → lookup_breakpoint t' b ≡ lookup_breakpoint t b

  pub Extended-start : (t : Target K H) → IsMapped access A t → Extended t [] t
  Extended-start t m = record { extended_mapped = m; new = λ b h. cc; others = λ b h. refl }

  pub Extended-enable :
      {t t' : Target K H} {addrs : List ℕ} (a : ℕ)
      → lookup_breakpoint t' a ≡ false
      → Extended t addrs t'
      → Extended t (a ∷ addrs) (enable_breakpoint t' a).1
  Extended-enable {t} {t'} {addrs} a off x = record {
    extended_mapped = enable-IsMapped access A L t' a x.extended_mapped;
    new = λ b h. elim (Bool-cases (mem b addrs)) [
      | inl inside ↦ x.new b inside
      | inr outside ↦ ground (arith, x.others b outside, off)
    ];
    others = λ b h. ground (arith, lookup-enable access A L t' a x.extended_mapped b, x.others b);
  }

  Extended-Restored :
      {t t' t'' : Target K H} {addrs : List ℕ}
      → Extended t addrs t'
      → Restored t' t''
      → Extended t addrs t''
  Extended-Restored x r =
      let s = r.restored x.extended_mapped in
      record {
        extended_mapped = s.still_mapped;
        new = x.new;
        others = λ b h. s.lookups b ∙ x.others b h;
      }

  record Deleted (t : Target K H) (addrs : List ℕ) (t' : Target K H) : Type 0 where
    deleted_mapped : IsMapped access A t'
    left : (b : ℕ) → lookup_breakpoint t' b ≡ (if mem b addrs then false else lookup_breakpoint t b)

  delete_breakpoints-Deleted :
      (addrs : List ℕ) (t : Target K H)
      → IsMapped access A t
      → Deleted t addrs (delete_breakpoints addrs t)
  unfolding delete_breakpoints
  delete_breakpoints-Deleted [] t m = record { deleted_mapped = m; left = λ b. refl }
  delete_breakpoints-Deleted (a ∷ addrs) t m =
      let d = delete_breakpoints-Deleted addrs t m in
      record {
        deleted_mapped = disable-IsMapped access A L _ a d.deleted_mapped;
        left = λ b. ground (arith, d.left b, lookup-disable access A L _ a d.deleted_mapped b);
      }

  -- Once the added breakpoints are deleted, those of `t` are left.
  Extended-delete :
      {t t' : Target K H} {addrs : List ℕ}
      → Extended t addrs t'
      → SameBreakpoints t (delete_breakpoints addrs t')
  Extended-delete {t} {t'} {addrs} x =
      let d = delete_breakpoints-Deleted addrs t' x.extended_mapped in
      record {
        still_mapped = d.deleted_mapped;
        lookups = λ b. elim (Bool-cases (mem b addrs)) [
          | inl inside ↦ ground (arith, d.left b, x.new b inside)
          | inr outside ↦ ground (arith, d.left b, x.others b outside)
        ];
      }

  -- The addresses to clear, with that of the transient breakpoint.
  abbrev pub with_transient : Transient → List ℕ → List ℕ
  with_transient b addrs = if b.remove then b.address ∷ addrs else addrs

  pub set_return_address_breakpoint-Extended :
      {t : Target K H} {addrs : List ℕ} (t' : Target K H) (b : Transient)
      → set_return_address_breakpoint t' ≡ some b
      → Extended t addrs t'
      → Extended t (with_transient b addrs) b.target
  unfolding set_return_address_breakpoint
  set_return_address_breakpoint-Extended {t} {addrs} t' b h x =
      elim (Option-cases (get_register_value t'.sys rbp)) [
        | inl missing ↦ ground arith
        | inr (fp, e) ↦
            let a = return_address t' fp in
            elim (Bool-cases (lookup_breakpoint t' a)) [
              | inl on ↦
                  let found : b ≡ record { remove = false; address = a; target = t' } =
                    ground arith in
                  rw found x
              | inr off ↦
                  let set : b
                      ≡ record { remove = true; address = a; target = (enable_breakpoint t' a).1 } =
                    ground arith in
                  rw set (Extended-enable a off x)
            ]
      ]

  remove_transient-delete :
      (b : Transient) (addrs : List ℕ) (t : Target K H)
      → remove_transient b.remove b.address (delete_breakpoints addrs t)
        ≡ delete_breakpoints (with_transient b addrs) t
  unfolding remove_transient delete_breakpoints
  remove_transient-delete b addrs t = elim (Bool-cases b.remove) [
    | inl on ↦ rw on
    | inr off ↦ rw off
  ]

  -- On to the next stop, and the breakpoints out.
  pub leave_scope-SameBreakpoints :
      (fuel : ℕ) (t : Target K H) (b : Transient) (addrs : List ℕ)
      → Extended t (with_transient b addrs) b.target
      → Every (SameBreakpoints t) (
          then_run (continue_and_wait fuel b.target) (λ res t'.
            some (res, remove_transient b.remove b.address (delete_breakpoints addrs t'))))
  leave_scope-SameBreakpoints fuel t b addrs x =
      Every-then_run (continue_and_wait-R Restored-IsStable fuel b.target) (λ res t' r.
        ends (rw (remove_transient-delete b addrs t') (Extended-delete (Extended-Restored x r))))
