-- ===== src/Engine/Lua/Depth.antt =====
-- server/engine.cpp: how many values a command leaves on the stack of Lua.
use f1985gfw.Base.{
  or_fault-some, arith, ℕ, suc, ◌+◌, ◌≤◌, ◌≡◌, refl, sym, ap, ◌∙◌, subst, inl, inr, List, [], ◌∷◌,
  ◌++◌, length, ◌==◌, Bool-cases, ok, bad_argument, or_fault,
}
use f1985gfw.Worker.Closing.{ok-injective}
use f1985gfw.Engine.Lua.{
  LuaApi, LuaLaws, min_stack, Left, returned, raised, check, check_function, t_table, t_function,
}

split_last {ℓ} :
    {A : Type ℓ} (x : A) (xs : List A)
    → (above : List A) × (last : A) × (x ∷ xs ≡ above ++ last ∷ []) × (length above ≡ length xs)
split_last x [] = ([], x, refl, refl)
split_last x (y ∷ ys) =
    let (above, last, e, n) = split_last y ys in (x ∷ above, last, ap (◌∷◌ x) e, ap suc n)

module _ (lua : LuaApi) where
  -- The number of values, `lua_gettop`.
  abbrev pub gettop : lua.State → ℕ
  gettop s = length (lua.stack s)

  -- The stack for the call of `Check`: the function, its table, and two numbers.
  abbrev pub with_arguments : lua.State → lua.State
  with_arguments s =
      lua.pushinteger 222 (lua.pushinteger 111 (lua.remove_first (lua.pushvalue_second s)))

  -- What `testlua1` does to the number of values: nothing, but for an error, which is left.
  pub data Checked (base : List lua.Value) : List lua.Value → Type 0 where
    skipped : Checked base base
    went : (rest : List lua.Value) → length rest ≡ length base → Checked base rest
    failed :
        (error : lua.Value) (rest : List lua.Value)
        → length rest ≡ length base
        → Checked base (error ∷ rest)

module _ (lua : LuaApi) (laws : LuaLaws lua) where
  pub called-Left :
      (s : lua.State) (f table : lua.Value) (base : List lua.Value)
      → lua.stack s ≡ f ∷ table ∷ base
      → length base + 4 ≤ min_stack
      → (above : List lua.Value) × (length above ≡ length base)
        × Left above []
            (lua.stack (lua.pcall 3 (with_arguments lua s)).0)
            (lua.pcall 3 (with_arguments lua s)).1
  called-Left s f table base on room =
      let size = ap length on in
      let (above, last, cut, n) = split_last table base in
      let copied = laws.pushvalue_second-push s f table base (omega (arith, size, room)) on in
      let shorter =
        laws.remove_first-last (lua.pushvalue_second s) (table ∷ f ∷ above) last
          (copied ∙ ap (λ (xs : List lua.Value). table ∷ f ∷ xs) cut) in
      let (a, first) =
        laws.pushinteger-push 111 (lua.remove_first (lua.pushvalue_second s))
          (omega (arith, ap length shorter, n, room)) in
      let (b, second) =
        laws.pushinteger-push 222 (lua.pushinteger 111 (lua.remove_first (lua.pushvalue_second s)))
          (omega (arith, ap length first, ap length shorter, n, room)) in
      (
        above,
        n,
        laws.pcall-left _ (b ∷ a ∷ table ∷ []) f above
            (second ∙ ap (◌∷◌ b) (first ∙ ap (◌∷◌ a) shorter)),
      )

  called-Checked :
      {code : ℕ} {after : List lua.Value} (base above : List lua.Value)
      → length above ≡ length base
      → Left above [] after code
      → Checked lua base after
  called-Checked base above n returned = went above n
  called-Checked base above n (raised error _ _) = failed error above n

  pub check-Checked :
      (s : lua.State)
      → gettop lua s + 4 ≤ min_stack
      → Checked lua (lua.stack s) (lua.stack (check lua s))
  unfolding check
  check-Checked s room =
      let (m, global, _) = laws.getglobal-push "CheckAddBuffManager" s (omega (arith, room)) in
      let (key, text) =
        laws.pushstring-push "Check" (lua.getglobal "CheckAddBuffManager" s).0
          (omega (arith, ap length global, room)) in
      let (f, got, _) =
        laws.gettable_second-replace
          (lua.pushstring "Check" (lua.getglobal "CheckAddBuffManager" s).0) key m (lua.stack s)
          (text ∙ ap (◌∷◌ key) global) in
      elim (Bool-cases ((lua.getglobal "CheckAddBuffManager" s).1 == t_table)) [
        | inr other ↦ rw other (
            subst (Checked lua (lua.stack s)) (sym (laws.pop-rest _ m (lua.stack s) global))
              skipped)
        | inl table ↦
            rw table
              (elim (Bool-cases (
                (lua.gettable_second
                  (lua.pushstring "Check" (lua.getglobal "CheckAddBuffManager" s).0)).1
                == t_function)) [
                  | inl function ↦ rw function (
                      let (above, n, left) = called-Left _ f m (lua.stack s) got room in
                      called-Checked (lua.stack s) above n left)
                  | inr other ↦ rw other (
                      subst (Checked lua (lua.stack s))
                        (sym (laws.pop-rest _ m (lua.stack s) (laws.pop-rest _ f _ got))) skipped)
                ])
      ]

  pub check_function-same :
      (s t : lua.State)
      → gettop lua s + 3 ≤ min_stack
      → check_function lua s ≡ ok t
      → lua.stack t ≡ lua.stack s
  unfolding check_function
  check_function-same s t room e =
      let (m, global, _) = laws.getglobal-push "CheckAddBuffManagerCheck" s (omega (arith, room)) in
      let (a, first) =
        laws.pushstring-push "sdfsdf111" (lua.getglobal "CheckAddBuffManagerCheck" s).0
          (omega (arith, ap length global, room)) in
      let (b, second) =
        laws.pushstring-push "sdfsdf222"
          (lua.pushstring "sdfsdf111" (lua.getglobal "CheckAddBuffManagerCheck" s).0)
          (omega (arith, ap length first, ap length global, room)) in
      elim (Bool-cases ((lua.getglobal "CheckAddBuffManagerCheck" s).1 == t_function)) [
        | inr other ↦
            let out = ok-injective (rw other at e) in
            ap lua.stack (sym out) ∙ laws.pop-rest _ m (lua.stack s) global
        | inl function ↦
            let run : or_fault
                  (lua.call 2 (
                    lua.pushstring "sdfsdf222"
                      (lua.pushstring "sdfsdf111" (lua.getglobal "CheckAddBuffManagerCheck" s).0)))
                  bad_argument
                ≡ ok t =
              rw function at e in
            laws.call-rest _ t (b ∷ a ∷ []) m (lua.stack s)
              (second ∙ ap (◌∷◌ b) (first ∙ ap (◌∷◌ a) global)) (or_fault-some bad_argument _ run)
      ]
