-- ===== src/Link/Reach.antt =====
-- The worlds that a link can reach, over any sequence of events of the link and of changes that other
-- processes make to the store, and what is so in all of them.
use online_observatory.Common.{ℕ, List, [], ◌≡◌, refl, All}
use online_observatory.Link.Messages.{Wire, CloudToAgentMessage}
use online_observatory.Link.Storage.{LinkStore}
use online_observatory.Link.State.{Presign, new_link}
use online_observatory.Link.Handlers.{World, set_db}
use online_observatory.Link.Conversation.{receive, receive_binary, dispatch, expire}
use online_observatory.Link.Ownership.{IsOwnEffect, IsOwned, own_later}
use online_observatory.Link.Ownership.Events.{
  own_receive, own_receive_binary, own_dispatch, own_expire,
}

module _ (S : LinkStore) (W : Wire) (presign : Presign) where
  -- One event of the link, or a change that another process makes to the store.
  pub data Step : World S → World S → Type 0 where
    text : (raw : W.Raw) (now : ℕ) (w : World S) → Step w (receive S W presign raw now w)
    binary : (payload : List ℕ) (now : ℕ) (w : World S) → Step w (receive_binary S payload now w)
    dispatched : (m : CloudToAgentMessage) (w : World S) → Step w (dispatch S m w).1
    silent : (now : ℕ) (w : World S) → Step w (expire S now w)
    elsewhere : (d : S.Db) (w : World S) → S.Later w.db d → Step w (set_db S d w)

  pub data Reaches : World S → World S → Type 0 where
    here : (w : World S) → Reaches w w
    then_step : (v w x : World S) → Step v w → Reaches w x → Reaches v x

  pub Reaches-Step : (v w x : World S) → Reaches v w → Step w x → Reaches v x
  Reaches-Step _ _ x (here w) s = then_step w x x s (here x)
  Reaches-Step _ _ x (then_step v w y s r) t = then_step v w x s (Reaches-Step w y x r t)

  own-Step :
      (o : ℕ) (base : S.Db) (v w : World S) → Step v w → IsOwned S o base v → IsOwned S o base w
  own-Step o base _ _ (text raw now w) h = own_receive S o base W presign raw now w h
  own-Step o base _ _ (binary payload now w) h = own_receive_binary S o base payload now w h
  own-Step o base _ _ (dispatched m w) h = own_dispatch S o base m w h
  own-Step o base _ _ (silent now w) h = own_expire S o base now w h
  own-Step o base _ _ (elsewhere d w later) h = own_later S o base w d later h

  own-Reaches :
      (o : ℕ) (base : S.Db) (v w : World S) → Reaches v w → IsOwned S o base v → IsOwned S o base w
  own-Reaches o base _ _ (here w) h = h
  own-Reaches o base _ _ (then_step v w x s r) h =
      own-Reaches o base w x r (own-Step o base v w s h)

  abbrev pub fresh : (observatory_id mode now : ℕ) → S.Db → World S
  fresh o mode now d = record { link = new_link o mode now; db = d; out = [] }

  pub IsOwned-now :
      (o mode now : ℕ) (d : S.Db) (v : World S)
      → Reaches (fresh o mode now d) v
      → IsOwned S o v.db v
  IsOwned-now o mode now d v r =
      let start : IsOwned S o d (fresh o mode now d) = record {
        cached = tt;
        told = tt;
        since = S.later_refl d;
        same_id = refl;
      } in
      let h = own-Reaches o d (fresh o mode now d) v r start in
      record { cached = h.cached; told = h.told; since = S.later_refl v.db; same_id = h.same_id }

  -- Whatever an agent sends in whatever order, and whatever other processes do to the store in
  -- between: the link stays its observatory's, everything that it has broadcast about a mission is
  -- about one that the store says is that observatory's, and every answer to a command that it has
  -- broadcast is to one that the store says was minted for that observatory.
  pub Reaches-IsOwned :
      (o mode now : ℕ) (d : S.Db) (w : World S)
      → Reaches (fresh o mode now d) w
      → (w.link.observatory_id ≡ o) × All (IsOwnEffect S o w.db) w.out
  Reaches-IsOwned o mode now d w r =
      let h = IsOwned-now o mode now d w r in (h.same_id, rw⁻¹ h.same_id h.told)

  -- What happens from a reachable world on keeps the store's past.
  pub Reaches-Later :
      (o mode now : ℕ) (d : S.Db) (v w : World S)
      → Reaches (fresh o mode now d) v
      → Reaches v w
      → S.Later v.db w.db
  Reaches-Later o mode now d v w before r =
      (own-Reaches o v.db v w r (IsOwned-now o mode now d v before)).since
