-- ===== src/Tests/Scripts.antt =====
-- Examples for server/engine.cpp: Lua, as a stack of numbers in which every call of the table's function fails,
-- and the functions that it calls.
use f1985gfw.Base.{
  ℕ, suc, ◌+◌, ◌≤◌, ◌≡◌, refl, sym, ap, ◌∙◌, Option, none, some, List, [], ◌∷◌, ◌++◌, length, drop,
  some-eq, arith, Fault, ok, fault,
}
use f1985gfw.Base.Dict.{find, assign}
use f1985gfw.Base.Texts.{codes}
use f1985gfw.Engine.{Engine, call_check, run_script}
use f1985gfw.Engine.Lua.{LuaApi, LuaLaws, returned, raised, do_main, perform, perform_all, check}
use f1985gfw.Engine.Lua.Depth.{gettop}
use f1985gfw.Engine.Lua.Reload.{checks, perform_all-gettop}
use f1985gfw.Engine.Lua.Students.{
  student, set_age, Students, new_global, no_students, LuaValue, number, text, block, pointer, arg,
  last, checkudata, check_number, StudentCall, create, global_one, age_it, lua_create_student,
  lua_get_global_student, lua_student_set_age, lua_student_set_name, lua_student_get_name, call_c,
  call_all,
}
use f1985gfw.Engine.Lua.Names.{call_all-names}
use f1985gfw.Tests.Memory.{easy}
use f1985gfw.Tests.Consoles.{digit}
use f1985gfw.Tests.Sessions.{bytes_proto, client_net}
use f1985gfw.Engine.Lua.Leak.{testlua1, rounds, AllFail, testlua1-leak}

but_last : List ℕ → List ℕ
but_last [] = []
but_last (x ∷ xs) = elim xs [ [] ↦ [] | _ ∷ _ ↦ x ∷ but_last xs ]

second : List ℕ → List ℕ
second [] = 0 ∷ []
second (x ∷ []) = 0 ∷ x ∷ []
second (x ∷ y ∷ ys) = y ∷ x ∷ y ∷ ys

-- A value is its type.
abbrev failing : LuaApi
failing = record {
  State = List ℕ;
  Value = ℕ;
  stack = λ s. s;
  kind = λ v. v;
  newstate = [];
  getglobal = λ name s. (5 ∷ s, 5);
  setglobal = λ name s. drop 1 s;
  pushstring = λ text s. 4 ∷ s;
  pushinteger = λ n s. 3 ∷ s;
  pushcfunction = λ f s. 6 ∷ s;
  pushvalue_top = λ s. elim s [ [] ↦ [] | v ∷ rest ↦ v ∷ v ∷ rest ];
  pushvalue_second = second;
  gettable_second = λ s. (6 ∷ drop 1 s, 6);
  getfield_second = λ name s. 4 ∷ s;
  setfield_second = λ name s. drop 1 s;
  concat_two = λ s. 4 ∷ drop 2 s;
  newmetatable = λ name s. 5 ∷ s;
  setfuncs = λ s. s;
  remove_first = but_last;
  pop = λ s. drop 1 s;
  pcall = λ n s. (4 ∷ drop (suc n) s, 2);
  call = λ n s. some (drop (suc n) s);
  dofile = λ path s. (s, 0);
}

but_last-append : (xs : List ℕ) (v : ℕ) → but_last (xs ++ v ∷ []) ≡ xs
unfolding but_last
but_last-append [] v = refl
but_last-append (x ∷ []) v = refl
but_last-append (x ∷ y ∷ xs) v = ap (◌∷◌ x) (but_last-append (y ∷ xs) v)

drop-called : (args rest : List ℕ) (f : ℕ) → drop (suc (length args)) (args ++ f ∷ rest) ≡ rest
drop-called [] rest f = refl
drop-called (a ∷ args) rest f = drop-called args rest f

failing-laws : LuaLaws failing
unfolding second
failing-laws = record {
  newstate-empty = refl;
  getglobal-push = λ name s room. (5, refl, refl);
  setglobal-pop = λ name s v rest e. ap (drop 1) e;
  pushstring-push = λ text s room. (4, refl);
  pushinteger-push = λ n s room. (3, refl);
  pushcfunction-push = λ f s room. (6, refl);
  pushvalue_top-push = λ s v rest room e. rw e refl;
  pushvalue_second-push = λ s v w rest room e. rw e refl;
  gettable_second-replace = λ s key table rest e. (6, ap (λ xs. 6 ∷ drop 1 xs) e, refl);
  getfield_second-push = λ name s room. (4, refl);
  setfield_second-pop = λ name s v rest e. ap (drop 1) e;
  concat_two-join = λ s v w rest e. (4, ap (λ xs. 4 ∷ drop 2 xs) e);
  newmetatable-push = λ name s room. (5, refl);
  setfuncs-stack = λ s. refl;
  remove_first-last = λ s above v e. ap but_last e ∙ but_last-append above v;
  pop-rest = λ s v rest e. ap (drop 1) e;
  pcall-left = λ s args f rest e. rw (e, drop-called args rest f) (raised 4 2 (λ h. ground arith));
  call-rest = λ s t args f rest e h.
      sym (some-eq h) ∙ ap (drop (suc (length args))) e ∙ drop-called args rest f;
  dofile-left = λ path s room. ([], returned);
}

commands_done : perform_all failing (call_check ∷ run_script ∷ []) [] ≡ ok (4 ∷ [])
unfolding perform_all perform check do_main second but_last
commands_done = refl

perform_all-gettop_example :
    gettop failing (4 ∷ []) ≤ gettop failing [] + checks (call_check ∷ run_script ∷ [])
unfolding checks
perform_all-gettop_example =
    perform_all-gettop failing failing-laws (λ s e. refl) (call_check ∷ run_script ∷ []) [] (4 ∷ [])
      (omega arith) commands_done

abbrev two_checks : Engine
two_checks = record { commands = testlua1 ∷ testlua1 ∷ []; net = client_net []; lua_calls = [] }

testlua1-leak_example :
    (f : Engine) × (t : List ℕ) × (rounds easy digit bytes_proto 2 two_checks ≡ ok f)
    × (perform_all failing f.lua_calls [] ≡ ok t)
    × (gettop failing t ≡ gettop failing [] + 2)
unfolding AllFail
testlua1-leak_example =
    testlua1-leak failing failing-laws easy digit bytes_proto 2 two_checks [] refl refl
      (omega arith)
      (refl, refl, (λ e. absurd (omega arith)), (refl, refl, (λ e. absurd (omega arith)), tt))

-- A script that makes a student, asks for the global one and sets its age.
abbrev script : List (StudentCall × List LuaValue)
script = (create, []) ∷ (global_one, []) ∷ (age_it, pointer 0 ∷ number 45645 ∷ []) ∷ []

abbrev scripted : Students
scripted = record {
  objects = (0, record { name = codes "Empty"; age = 45645 }) ∷ [];
  next = 1;
  global_ptr = some 0;
  blocks = (0, none) ∷ [];
  next_block = 1;
}

abbrev nothing_known {ℓ} : {A : Type ℓ} → Option LuaValue → Option A
nothing_known v = none

script_runs : call_all nothing_known nothing_known script (new_global no_students) ≡ ok scripted
unfolding call_all call_c lua_create_student lua_get_global_student lua_student_set_age new_global
    no_students arg last checkudata check_number set_age student assign find
script_runs = refl

call_all-names_example :
    ((f : Fault) × (lua_student_set_name nothing_known nothing_known
          (block 0 ∷ text [] ∷ [])
          scripted
        ≡ fault f))
    × ((f : Fault) × (lua_student_get_name nothing_known nothing_known
            (block 0 ∷ text [] ∷ [])
            scripted
          ≡ fault f))
call_all-names_example =
    call_all-names nothing_known nothing_known script scripted (block 0 ∷ text [] ∷ []) script_runs
