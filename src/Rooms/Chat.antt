-- ===== src/Rooms/Chat.antt =====
-- The chat of a room: `send_message` of Chess-Backend/src/socket/gameSocket.js. A text is the list of
-- its UTF-16 code units, which `slice` and `trim` count.
use end_to_end_kubernetes_ch.Base.{
  ℕ, zero, suc, Bool, true, false, Option, List, [], ◌∷◌, ◌||◌, ◌&&◌, ◌==◌, leb, if◌then◌else◌,
  find,
}
use end_to_end_kubernetes_ch.Store.Finalize.{Player}
use end_to_end_kubernetes_ch.Store.Persist.{ChessJs}
use end_to_end_kubernetes_ch.Rooms.{Env, Room, Task, done, on, emit, is_at, to_room, chat_message}
use end_to_end_kubernetes_ch.Rooms.Play.{in_cached_room}

-- What `trim` removes: WhiteSpace and LineTerminator of ECMAScript.
abbrev pub is_space : ℕ → Bool
is_space c =
    (leb 9 c && leb c 13)
    || c == 32
    || c == 160
    || c == 5760
    || (leb 8192 c && leb c 8202)
    || c == 8232
    || c == 8233
    || c == 8239
    || c == 8287
    || c == 12288
    || c == 65279

-- `slice(0, n)`
abbrev pub slice : ℕ → List ℕ → List ℕ
slice zero text = []
slice (suc n) [] = []
slice (suc n) (c ∷ cs) = c ∷ slice n cs

-- `!clean`
abbrev pub is_falsy : List ℕ → Bool
is_falsy [] = true
is_falsy (c ∷ cs) = false

abbrev pub trim_start : List ℕ → List ℕ
trim_start [] = []
trim_start (c ∷ cs) = if is_space c then trim_start cs else c ∷ cs

abbrev pub trim_end : List ℕ → List ℕ
trim_end [] = []
trim_end (c ∷ cs) = let rest = trim_end cs in if is_space c && is_falsy rest then [] else c ∷ rest

-- `text.slice(0, 200).trim()`
unfoldable pub clean_text : List ℕ → List ℕ
clean_text text = trim_end (trim_start (slice 200 text))

module _ (chess : ChessJs) (env : Env) where
  -- `send_message`, after the look-up of the room and of the author
  abbrev pub say : Room chess → Player → List ℕ → Task chess (Unit {0})
  say room player clean =
      if is_falsy clean
      then done tt
      else emit (to_room room.id (chat_message player.name player.color clean env.now))

  unfoldable pub send_message : ℕ → Option ℕ → List ℕ → Task chess (Unit {0})
  send_message socket id text = in_cached_room id (done tt) (λ room.
      on (find (is_at socket) room.players) (done tt) (λ player. say room player (clean_text text)))
