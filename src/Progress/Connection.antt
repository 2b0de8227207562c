-- ===== src/Progress/Connection.antt =====
-- Making and closing a connection returns.
use bluepy.Protocol.{err_bad_param, resp_error}
use bluepy.Progress.Protocol.{
  Replies-resp_error, Runs-resp_str_error, Replies-set_state, Runs-set_state,
}
use bluepy.Progress.Replies.{
  Replies-on_option, Replied, Replies-then, Replies-get, Replies->>, Replies,
}
use bluepy.Common.{
  length, refl, false, ltb, none, true, some, if◌then◌else◌, ◌≡◌, Text, ℕ, Bool, List, Option, [],
  ◌∷◌,
}
use bluepy.Progress.Runs.{
  Runs-on_option, Runs->>, Runs-modify, Runs-call, Runs-skip, Runs-print, Runs-get, running, Runs,
}
use bluepy.World.{on_option, modify, ◌>>◌, Action, Handler, get, ◌>>=◌, World, Ptr, Env}
use bluepy.Connection.{
  is_disconnected, set_up_attrib, start_connect, cmd_connect, connect_cb, set_destination, attach,
  choose_mtu, cmd_exit, register_all, disconnect_io, channel_watcher,
}

Runs-register_all : (attrib : Option Ptr) (rs : List (ℕ × Handler)) → Runs (register_all attrib rs)
unfolding register_all
Runs-register_all attrib [] = Runs-skip
Runs-register_all attrib ((opcode, handler) ∷ rest) =
    Runs->> (Runs-call _) (Runs-register_all attrib rest)

pub Runs-disconnect_io : Runs disconnect_io
unfolding disconnect_io
Runs-disconnect_io = search (running, Runs-set_state) depth 10

pub Runs-channel_watcher : (chan : Ptr) → Runs (channel_watcher chan)
unfolding channel_watcher
Runs-channel_watcher chan = search (running, Runs-disconnect_io) depth 8

pub Runs-cmd_exit : (argv : List Text) → Runs (cmd_exit argv)
unfolding cmd_exit
Runs-cmd_exit argv = search running

Runs-choose_mtu : (r : Option (ℕ × ℕ)) → Runs (choose_mtu r)
unfolding choose_mtu
Runs-choose_mtu none = Runs-print _
Runs-choose_mtu (some r) = Runs-skip

module _ (env : Env) where
  Replies-attach : (r : Option (ℕ × ℕ)) → Replies env (attach env r)
  unfolding attach
  Replies-attach r = Replies->> (Runs-choose_mtu r) (
      Replies-get _ _ (λ w. Replies->> (Runs-call _) (
        Replies->> (Runs-modify _ (λ v. refl))
          (Replies->> (Runs-register_all _ _) (Replies-set_state _)))))

  pub Replies-connect_cb : (io : Ptr) (error : Option Text) → Replies env (connect_cb env io error)
  unfolding connect_cb set_up_attrib
  Replies-connect_cb io none = Replies-get _ _ (λ r. Replies-attach r)
  Replies-connect_cb io (some message) =
      Replies-then (Replies-set_state _) (Runs->> (Runs-resp_str_error _ _) (Runs-print _))

  same_trace : (v w : World) (b : Bool) → v.trace ≡ w.trace → (if b then v else w).trace ≡ w.trace
  same_trace v w true h = h
  same_trace v w false h = refl

  Replies-start_connect : (dst : Text) → Replies env (start_connect env dst)
  unfolding start_connect
  Replies-start_connect dst = Replies-then (Replies-set_state _) (
      Runs-get _ _ (λ w. Runs->> (Runs-call _) (
        Runs->> (Runs-modify _ (λ v. refl))
          (Runs-on_option _ _ _ (Runs-set_state _) (λ chan. Runs-call _)))))

  -- The part of `cmd_connect` behind the test of the state.
  connect_body : List Text → Action
  connect_body argv = do
    modify (set_destination env argv)
    v ← get (λ w. w)
    on_option v.opt_dst (resp_error err_bad_param) (λ dst. start_connect env dst)

  Replies-connect_body : (argv : List Text) → Replies env (connect_body argv)
  unfolding connect_body set_destination
  Replies-connect_body argv =
      Replies->> (Runs-modify _ (λ w. same_trace _ w (ltb 1 (length argv)) refl)) (
        Replies-get _ _
          (λ v. Replies-on_option _ _ _ (Replies-resp_error _) (λ dst. Replies-start_connect dst)))

  pub cmd_connect-Replied :
      (argv : List Text) (w : World)
      → is_disconnected w.conn_state ≡ true
      → Replied env w (cmd_connect env argv w)
  unfolding cmd_connect connect_body ◌>>=◌ get
  cmd_connect-Replied argv w h = rw h ((Replies-connect_body argv).replies w)
