-- ===== src/Engine/Lua/Reload.antt =====
-- server/engine.cpp: `init_script` and the main script, and any sequence of commands.
use Prim.Native.String.{String}
use f1985gfw.Base.{
  ℕ, suc, ◌+◌, ◌<◌, ◌≤◌, ◌≡◌, refl, sym, ap, ◌∙◌, inl, inr, false, List, [], ◌∷◌, length, ◌==◌,
  ==_iff, Bool-cases, arith, ok, >>=-split,
}
use f1985gfw.Worker.Closing.{ok-injective}
use f1985gfw.Engine.{
  LuaCall, run_script, new_state, new_example_state, call_check, call_check_function,
}
use f1985gfw.Engine.Lua.{
  LuaApi, LuaLaws, min_stack, example_script, Left, returned, raised, CFunction, main_script,
  do_main, set_package_path, register, register_student, prepare, init_script, perform, perform_all,
  check, script_path,
}
use f1985gfw.Engine.Lua.Depth.{
  gettop, Checked, skipped, went, failed, check-Checked, check_function-same,
}

-- How many of the calls are `testlua1`.
unfoldable pub checks : List LuaCall → ℕ
checks [] = 0
checks (call_check ∷ cs) = suc (checks cs)
checks (run_script ∷ cs) = checks cs
checks (new_state ∷ cs) = checks cs
checks (new_example_state ∷ cs) = checks cs
checks (call_check_function ∷ cs) = checks cs

module _ (lua : LuaApi) (laws : LuaLaws lua) where
  set_package_path-same :
      (s : lua.State)
      → gettop lua s + 3 ≤ min_stack
      → lua.stack (set_package_path lua s) ≡ lua.stack s
  unfolding set_package_path
  set_package_path-same s room =
      let (m, global, _) = laws.getglobal-push "package" s (omega (arith, room)) in
      let (a, text) =
        laws.pushstring-push script_path (lua.getglobal "package" s).0
          (omega (arith, ap length global, room)) in
      let (b, field) =
        laws.getfield_second-push "path" (lua.pushstring script_path (lua.getglobal "package" s).0)
          (omega (arith, ap length text, ap length global, room)) in
      let (c, joined) = laws.concat_two-join _ b a _ (field ∙ ap (◌∷◌ b) text) in
      laws.pop-rest _ m (lua.stack s) (laws.setfield_second-pop "path" _ c _ joined ∙ global)

  register-same :
      (f : CFunction) (name : String) (s : lua.State)
      → gettop lua s < min_stack
      → lua.stack (register lua f name s) ≡ lua.stack s
  unfolding register
  register-same f name s room =
      let (v, pushed) = laws.pushcfunction-push f s room in
      laws.setglobal-pop name _ v (lua.stack s) pushed

  register_student-same :
      (s : lua.State)
      → gettop lua s + 2 ≤ min_stack
      → lua.stack (register_student lua s) ≡ lua.stack s
  unfolding register_student
  register_student-same s room =
      let (v, pushed) = laws.newmetatable-push "StudentUserData" s (omega (arith, room)) in
      laws.pop-rest _ v (lua.stack s) (
        laws.setfuncs-stack _
        ∙ laws.setfield_second-pop "__index" _ v _
            (laws.pushvalue_top-push _ v _ (omega (arith, ap length pushed, room)) pushed))

  -- The number that `init_script` prints before it runs the main script is 0.
  registered :
      (f : CFunction) (name : String) (s : lua.State)
      → lua.stack s ≡ []
      → lua.stack (register lua f name s) ≡ []
  registered f name s none = register-same f name s (omega (arith, ap length none)) ∙ none

  path_set : lua.stack (set_package_path lua lua.newstate) ≡ []
  path_set =
      set_package_path-same lua.newstate (omega (arith, ap length laws.newstate-empty))
      ∙ laws.newstate-empty

  student_registered : (s : lua.State) → lua.stack s ≡ [] → lua.stack (register_student lua s) ≡ []
  student_registered s none = register_student-same s (omega (arith, ap length none)) ∙ none

  prepare-empty : lua.stack (prepare lua) ≡ []
  unfolding prepare
  prepare-empty = registered _ _ _ (
      student_registered _
        (registered _ _ _ (registered _ _ _ (registered _ _ _ (registered _ _ _ path_set)))))

  -- The main script returns no values, which holds of server/script/main.lua.
  module _
      (quiet : (s : lua.State)
        → (lua.dofile main_script s).1 ≡ 0
        → lua.stack (lua.dofile main_script s).0 ≡ lua.stack s) where
    do_main-same :
        (s : lua.State) → gettop lua s < min_stack → lua.stack (do_main lua s) ≡ lua.stack s
    unfolding do_main
    do_main-same s room = elim (Bool-cases ((lua.dofile main_script s).1 == 0)) [
      | inl fine ↦ rw fine (quiet s ((==_iff _ _).0 fine))
      | inr bad ↦ rw bad (popped refl bad (laws.dofile-left main_script s room).1)
    ]
      where
        popped :
            {results after : List lua.Value} {code : ℕ}
            → lua.stack (lua.dofile main_script s).0 ≡ after
            → (code == 0) ≡ false
            → Left (lua.stack s) results after code
            → lua.stack (lua.pop (lua.dofile main_script s).0) ≡ lua.stack s
        popped there bad returned = cc
        popped there bad (raised error _ _) = laws.pop-rest _ error (lua.stack s) there

    check-length :
        (s : lua.State)
        → gettop lua s + 4 ≤ min_stack
        → gettop lua (check lua s) ≤ suc (gettop lua s)
    check-length s room = go (check-Checked lua laws s room)
      where
        go :
            {after : List lua.Value}
            → Checked lua (lua.stack s) after
            → length after ≤ suc (length (lua.stack s))
        go skipped = omega arith
        go (went rest n) = omega arith
        go (failed error rest n) = omega arith

    -- With a main script that returns no values: while the stack has room for each `testlua1` among the
    -- calls and for four values more, it grows by at most one value for each `testlua1`, and not by any other
    -- call.
    pub perform_all-gettop :
        (calls : List LuaCall) (s t : lua.State)
        → gettop lua s + checks calls + 4 ≤ min_stack
        → perform_all lua calls s ≡ ok t
        → gettop lua t ≤ gettop lua s + checks calls
    unfolding perform_all perform init_script example_script checks
    perform_all-gettop [] s t room e = rw (ok-injective e) (omega arith)
    perform_all-gettop (c ∷ cs) s t room e =
        let (u, first, rest) = >>=-split (perform lua c s) (perform_all lua cs) e in
        step c u first room (λ less. perform_all-gettop cs u t less rest)
      where
        step :
            (c : LuaCall) (u : lua.State)
            → perform lua c s ≡ ok u
            → gettop lua s + checks (c ∷ cs) + 4 ≤ min_stack
            → (gettop lua u + checks cs + 4 ≤ min_stack → gettop lua t ≤ gettop lua u + checks cs)
            → gettop lua t ≤ gettop lua s + checks (c ∷ cs)
        step run_script u first room later =
            let same =
              ap length
                (ap lua.stack (sym (ok-injective first)) ∙ do_main-same s (omega (arith, room))) in
            let less = later (omega (arith, same, room)) in omega (arith, same, less)
        step new_state u first room later =
            let none_left = ap length (
              ap lua.stack (sym (ok-injective first))
              ∙ do_main-same _ (omega (arith, ap length prepare-empty))
              ∙ prepare-empty) in
            let less = later (omega (arith, none_left, room)) in omega (arith, none_left, less)
        step new_example_state u first room later =
            let none_left = ap length (
              ap lua.stack (sym (ok-injective first))
              ∙ do_main-same _ (omega (arith, ap length path_set))
              ∙ path_set) in
            let less = later (omega (arith, none_left, room)) in omega (arith, none_left, less)
        step call_check u first room later =
            let one = ap length (ap lua.stack (sym (ok-injective first))) in
            let most = check-length s (omega (arith, room)) in
            let less = later (omega (arith, one, most, room)) in omega (arith, one, most, less)
        step call_check_function u first room later =
            let same = ap length (check_function-same lua laws s u (omega (arith, room)) first) in
            let less = later (omega (arith, same, room)) in omega (arith, same, less)
