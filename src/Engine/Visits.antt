-- ===== src/Engine/Visits.antt =====
-- server/engine.cpp, server/wan_server.cpp and source/net_worker.hpp: the sessions and connections of the server from
-- its start on.
use f1985gfw.Base.{
  ℕ, ◌*◌, ◌≡◌, refl, sym, ap, ◌∙◌, subst, inl, inr, Bool, true, false, ◌&&◌, none, [], ok,
  >>=-split, Bool-cases, Option-cases,
}
use f1985gfw.Base.Dict.{find}
use f1985gfw.Worker.Closing.{ok-injective}
use f1985gfw.Worker.State.{World, Net, Env}
use f1985gfw.Worker.Slot.{is_connected}
use f1985gfw.Worker.Slot as Slot
use f1985gfw.Worker.Events.{open_port, handle_read}
use f1985gfw.Worker.Pool.{init-IsTable}
use f1985gfw.Worker.Life.{Sound}
use f1985gfw.Worker.Life.Reach.{Steps}
use f1985gfw.Worker.Life.Targets.{AllFree, init_slots-AllFree, open_port-Sound}
use f1985gfw.Worker.Presence.{online_slot, Agrees}
use f1985gfw.Worker.Presence.Handlers.{start_accept-Agrees}
use f1985gfw.Worker.Presence.Reach.{Steps-Agrees}
use f1985gfw.Server.Sessions.{Proto, App, init}
use f1985gfw.Server.Login.{init-IsSendOnly}
use f1985gfw.Server.Attendance.{has_session, init-IsRegister, lost}
use f1985gfw.Engine.Loop.{Ticker, engine_init}

-- The server's application before the first connection.
abbrev pub no_one : App
no_one = record { sessions = []; players = [] }

module _ (env : Env) (proto : Proto) where
  new-Agrees :
      Agrees
        (init env proto)
        has_session
        (record { net = Slot.init env.allocator (1024 * 1024) 5 1000; app = no_one })
  unfolding Slot.init AllFree find has_session
  new-Agrees = record {
    no_targets = refl;
    entries = λ j.
        elim (Option-cases (find j (Slot.init env.allocator (1024 * 1024) 5 1000).pointers)) [
          | inl missing ↦ rw missing refl
          | inr (p, found) ↦ rw found (
              sym (
                ap is_connected (
                  init_slots-AllFree env.allocator (1024 * 1024) 1000 1 [] (λ k q e. cc) j p
                    found)))
        ];
  }

  start-Agrees :
      (unset : ℕ) (opened reusable bound listening : Bool) (t : Ticker)
      → engine_init env unset opened reusable bound listening ≡ ok t
      → Agrees (init env proto) has_session (record { net = t.engine.net; app = no_one })
  unfolding engine_init open_port
  start-Agrees unset opened reusable bound listening t e =
      let (net, starts, done) =
        >>=-split
          (open_port true opened reusable bound listening
            (Slot.init env.allocator (1024 * 1024) 5 1000))
          _ e in
      subst
        (λ (x : Ticker).
          Agrees (init env proto) has_session (record { net = x.engine.net; app = no_one }))
        (ok-injective done)
        (elim (Bool-cases (opened && reusable && bound && listening)) [
          | inl all ↦
              start_accept-Agrees (init env proto) env (init-IsSendOnly env proto) has_session
                (init-IsRegister env proto) true _ net
                (init-IsTable env.allocator (1024 * 1024) 5 1000).0 (rw all at starts) new-Agrees
          | inr failed ↦
              subst
                (λ (x : Net).
                  Agrees (init env proto) has_session (record { net = x; app = no_one }))
                (ok-injective (rw failed at starts)) new-Agrees
        ])

  -- From the start of the server on, whatever its connections do: there is a session for each connected slot and
  -- for no other, and when a read of a connected slot fails, the server takes the session away without a fault.
  pub engine_init-sessions :
      (unset : ℕ) (opened reusable bound listening : Bool) (t : Ticker) (v : World App)
      → engine_init env unset opened reusable bound listening ≡ ok t
      → Steps (init env proto) env (record { net = t.engine.net; app = no_one }) v
      → ((j : ℕ) → has_session v.app j ≡ online_slot (find j v.net.pointers))
        × ((id at : ℕ)
            → online_slot (find id v.net.pointers) ≡ true
            → (u : World App) × (handle_read (init env proto) id at none v ≡ ok u)
              × (has_session u.app id ≡ false))
  unfolding engine_init
  engine_init-sessions unset opened reusable bound listening t v e steps =
      let (net, starts, done) =
        >>=-split
          (open_port true opened reusable bound listening
            (Slot.init env.allocator (1024 * 1024) 5 1000))
          _ e in
      let sound =
        open_port-Sound env.allocator (1024 * 1024) 5 1000 true opened reusable bound listening net
          starts in
      let agrees =
        Steps-Agrees (init env proto) env (init-IsSendOnly env proto) has_session
          (init-IsRegister env proto) _ v
          (subst (λ (x : Ticker). Sound x.engine.net) (ok-injective done) sound)
          (start-Agrees unset opened reusable bound listening t e) steps in
      (
        agrees.entries,
        λ id at on. elim (Option-cases (find id v.net.pointers)) [
          | inl missing ↦ absurd (false≢true (rw missing at on))
          | inr (p, found) ↦
              lost env proto id at p v found agrees.no_targets (agrees.entries id ∙ on)
        ],
      )
    where
      false≢true : false ≡ true → ⊥
      false≢true x = cc
