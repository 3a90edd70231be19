-- ===== src/Engine/Lua/Leak.antt =====
-- server/engine.cpp: a `testlua1` that fails leaves its error on the stack of Lua.
use f1985gfw.Base.{
  ℕ, zero, suc, ◌+◌, ◌≤◌, ◌≡◌, ◌≢◌, refl, sym, ap, ◌∙◌, Option, List, [], ◌∷◌, ◌++◌, length,
  replicate, append_assoc, append-nil, arith, Result, ok, ◌>>=◌,
}
use f1985gfw.Base.Texts.{Text, same_text}
use f1985gfw.Console.{Command, pop_front}
use f1985gfw.Worker.State.{Env}
use f1985gfw.Server.Sessions.{Proto}
use f1985gfw.Engine.{Engine, LuaCall, call_check, testlua1_name, run_once, obey, ask_lua}
use f1985gfw.Engine.Lua.{
  LuaApi, LuaLaws, min_stack, Left, returned, raised, t_table, t_function, check, perform,
  perform_all,
}
use f1985gfw.Engine.Lua.Depth.{gettop, with_arguments, called-Left}

abbrev pub testlua1 : Command
testlua1 = record { name = testlua1_name; params = [] }

-- So many rounds of the loop.
unfoldable pub rounds : Env → (Text → Option ℕ) → Proto → ℕ → Engine → Result Engine
rounds env stoi proto zero e = ok e
rounds env stoi proto (suc n) e = run_once env stoi proto e >>= rounds env stoi proto n

module _ (env : Env) (stoi : Text → Option ℕ) (proto : Proto) where
  run_once-testlua1 :
      (e : Engine) (rest : List Command)
      → run_once env stoi proto (record e { commands = testlua1 ∷ rest })
        ≡ ok (record e { commands = rest; lua_calls = e.lua_calls ++ call_check ∷ [] })
  unfolding run_once pop_front obey ask_lua same_text
  run_once-testlua1 e rest = refl

  rounds-testlua1 :
      (k : ℕ) (e : Engine)
      → rounds env stoi proto k (record e { commands = replicate k testlua1 })
        ≡ ok (record e { commands = []; lua_calls = e.lua_calls ++ replicate k call_check })
  unfolding rounds
  rounds-testlua1 zero e =
      ap (λ (cs : List LuaCall). ok (record e { commands = []; lua_calls = cs }))
        (sym (append-nil e.lua_calls))
  rounds-testlua1 (suc k) e = rw (run_once-testlua1 e (replicate k testlua1)) (
      rounds-testlua1 k (record e { lua_calls = e.lua_calls ++ call_check ∷ [] })
      ∙ ap (λ (cs : List LuaCall). ok (record e { commands = []; lua_calls = cs }))
          (append_assoc e.lua_calls (call_check ∷ []) (replicate k call_check)))

module _ (lua : LuaApi) where
  -- Each of so many commands `testlua1`, one after the other, finds the global table with a function `Check`,
  -- and the call of it fails.
  unfoldable pub AllFail : ℕ → lua.State → Type 0
  AllFail zero s = Unit {0}
  AllFail (suc k) s =
      let (s1, type) = lua.getglobal "CheckAddBuffManager" s in
      let (s2, other) = lua.gettable_second (lua.pushstring "Check" s1) in
      (type ≡ t_table)
      × (other ≡ t_function)
      × ((lua.pcall 3 (with_arguments lua s2)).1 ≢ 0)
      × AllFail k (check lua s)

module _ (lua : LuaApi) (laws : LuaLaws lua) where
  check-failed :
      (k : ℕ) (s : lua.State)
      → gettop lua s + 4 ≤ min_stack
      → AllFail lua (suc k) s
      → gettop lua (check lua s) ≡ suc (gettop lua s)
  unfolding check AllFail
  check-failed k s room (table, function, fails, _) =
      let (m, global, _) = laws.getglobal-push "CheckAddBuffManager" s (omega (arith, room)) in
      let (key, text) =
        laws.pushstring-push "Check" (lua.getglobal "CheckAddBuffManager" s).0
          (omega (arith, ap length global, room)) in
      let (f, got, _) =
        laws.gettable_second-replace
          (lua.pushstring "Check" (lua.getglobal "CheckAddBuffManager" s).0) key m (lua.stack s)
          (text ∙ ap (◌∷◌ key) global) in
      let (above, n, left) = called-Left lua laws _ f m (lua.stack s) got room in
      rw (table, function) (one_more fails n left)
    where
      one_more :
          {code : ℕ} {above after : List lua.Value}
          → code ≢ 0
          → length above ≡ length (lua.stack s)
          → Left above [] after code
          → length after ≡ suc (length (lua.stack s))
      one_more bad n returned = absurd (bad refl)
      one_more bad n (raised error _ _) = ap suc n

  performed :
      (k : ℕ) (s : lua.State)
      → gettop lua s + k + 3 ≤ min_stack
      → AllFail lua k s
      → (t : lua.State) × (perform_all lua (replicate k call_check) s ≡ ok t)
        × (gettop lua t ≡ gettop lua s + k)
  unfolding perform_all perform AllFail
  performed zero s room fails = (s, refl, omega arith)
  performed (suc k) s room fails =
      let more = check-failed k s (omega (arith, room)) fails in
      let (t, done, top) = performed k (check lua s) (omega (arith, more, room)) fails.3 in
      (t, done, omega (arith, top, more))

  -- A console that gives the command `testlua1` and no other, where each time the global table has a function
  -- `Check` and its call fails, leaves as many values on the stack of Lua as there are commands, as long as
  -- the stack has room for these and three more.
  pub testlua1-leak :
      (env : Env) (stoi : Text → Option ℕ) (proto : Proto) (k : ℕ) (e : Engine) (s : lua.State)
      → e.commands ≡ replicate k testlua1
      → e.lua_calls ≡ []
      → gettop lua s + k + 3 ≤ min_stack
      → AllFail lua k s
      → (f : Engine) × (t : lua.State) × (rounds env stoi proto k e ≡ ok f)
        × (perform_all lua f.lua_calls s ≡ ok t)
        × (gettop lua t ≡ gettop lua s + k)
  testlua1-leak env stoi proto k e s typed fresh room fails =
      let (t, done, top) = performed k s room fails in
      (
        record e { commands = []; lua_calls = replicate k call_check },
        t,
        ap (rounds env stoi proto k) (ap (λ (cs : List Command). record e { commands = cs }) typed)
            ∙ rounds-testlua1 env stoi proto k e
            ∙ ap
                (λ (cs : List LuaCall).
                  ok (record e { commands = []; lua_calls = cs ++ replicate k call_check }))
                fresh,
        done,
        top,
      )
