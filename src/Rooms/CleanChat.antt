-- ===== src/Rooms/CleanChat.antt =====
-- What a chat message can be (`send_message` of Chess-Backend/src/socket/gameSocket.js).
use end_to_end_kubernetes_ch.Base.{
  ℕ, zero, suc, ◌<◌, ◌≤◌, ◌≡◌, ◌⊎◌, refl, inl, inr, true, false, Option, none, some, List, [], ◌∷◌,
  ◌++◌, ◌&&◌, ◌==◌, find, all, length, arith, Bool-cases, Option-cases,
}
use end_to_end_kubernetes_ch.Store.Finalize.{Player}
use end_to_end_kubernetes_ch.Store.Persist.{ChessJs}
use end_to_end_kubernetes_ch.Rooms.{
  Env, Room, Server, done, ◌>>=◌, on, emit, lookup, is_at, to_room, chat_message,
}
use end_to_end_kubernetes_ch.Rooms.Play.{in_cached_room}
use end_to_end_kubernetes_ch.Rooms.Chat.{
  is_space, slice, is_falsy, trim_start, trim_end, clean_text, send_message,
}

slice-length : (n : ℕ) (text : List ℕ) → length (slice n text) ≤ n
slice-length zero text = omega arith
slice-length (suc n) [] = omega arith
slice-length (suc n) (c ∷ cs) = omega (arith, slice-length n cs)

trim_start-length : (text : List ℕ) → length (trim_start text) ≤ length text
trim_start-length [] = omega arith
trim_start-length (c ∷ cs) = elim (Bool-cases (is_space c)) [
  | inl e ↦ rw e (omega (arith, trim_start-length cs))
  | inr e ↦ rw e (omega arith)
]

trim_end-length : (text : List ℕ) → length (trim_end text) ≤ length text
trim_end-length [] = omega arith
trim_end-length (c ∷ cs) = elim (Bool-cases (is_space c && is_falsy (trim_end cs))) [
  | inl e ↦ rw e (omega arith)
  | inr e ↦ rw e (omega (arith, trim_end-length cs))
]

clean_text-length : (text : List ℕ) → length (clean_text text) ≤ 200
unfolding clean_text
clean_text-length text = omega (
  arith,
  trim_end-length (trim_start (slice 200 text)),
  trim_start-length (slice 200 text),
  slice-length 200 text,
)

-- A text that starts, and one that ends, with no white space.
abbrev pub StartsClean : List ℕ → Type 0
StartsClean [] = Unit
StartsClean (c ∷ cs) = is_space c ≡ false

abbrev pub EndsClean : List ℕ → Type 0
EndsClean [] = Unit
EndsClean (c ∷ []) = is_space c ≡ false
EndsClean (c ∷ d ∷ cs) = EndsClean (d ∷ cs)

trim_start-StartsClean : (text : List ℕ) → StartsClean (trim_start text)
trim_start-StartsClean [] = tt
trim_start-StartsClean (c ∷ cs) = elim (Bool-cases (is_space c)) [
  | inl e ↦ rw e (trim_start-StartsClean cs)
  | inr e ↦ rw e e
]

trim_end-StartsClean : (text : List ℕ) → StartsClean text → StartsClean (trim_end text)
trim_end-StartsClean [] h = tt
trim_end-StartsClean (c ∷ cs) h = rw h h

cons-EndsClean :
    (c : ℕ) (cs : List ℕ) → (is_space c && is_falsy cs) ≡ false → EndsClean cs → EndsClean (c ∷ cs)
cons-EndsClean c [] e h = ground (arith, e)
cons-EndsClean c (d ∷ ds) e h = h

trim_end-EndsClean : (text : List ℕ) → EndsClean (trim_end text)
trim_end-EndsClean [] = tt
trim_end-EndsClean (c ∷ cs) = elim (Bool-cases (is_space c && is_falsy (trim_end cs))) [
  | inl e ↦ rw e tt
  | inr e ↦ rw e (cons-EndsClean c (trim_end cs) e (trim_end-EndsClean cs))
]

trim_start-blank : (text : List ℕ) → is_falsy (trim_start text) ≡ true → all is_space text ≡ true
trim_start-blank [] h = refl
trim_start-blank (c ∷ cs) h = elim (Bool-cases (is_space c)) [
  | inl e ↦ rw e (trim_start-blank cs (rw e at h))
  | inr e ↦ absurd (cc (rw e at h))
]

trim_end-blank :
    (text : List ℕ) → StartsClean text → is_falsy (trim_end text) ≡ true → is_falsy text ≡ true
trim_end-blank [] s h = refl
trim_end-blank (c ∷ cs) s h = absurd (cc (rw s at h))

clean_text-blank :
    (text : List ℕ) → is_falsy (clean_text text) ≡ true → all is_space (slice 200 text) ≡ true
unfolding clean_text
clean_text-blank text h =
    let first = slice 200 text in
    trim_start-blank first (trim_end-blank (trim_start first) (trim_start-StartsClean first) h)

nonempty : (text : List ℕ) → is_falsy text ≡ false → 0 < length text
nonempty [] h = cc
nonempty (c ∷ cs) h = omega arith

module _ (chess : ChessJs) (env : Env) where
  -- One message of the seat's player to the cached room, which the text of a request becomes.
  pub record IsSaid (socket id : ℕ) (text : List ℕ) (s s' : Server chess) : Type 0 where
    pub room : Room chess
    pub player : Player
    pub is_cached : find (λ (r : Room chess). r.id == id) s.rooms ≡ some room
    pub is_seated : find (is_at socket) room.players ≡ some player
    pub is_nonempty : 0 < length (clean_text text)
    pub is_short : length (clean_text text) ≤ 200
    pub starts : StartsClean (clean_text text)
    pub ends : EndsClean (clean_text text)
    pub is_sent : s' ≡ record s {
      sent =
          s.sent
          ++ to_room room.id (chat_message player.name player.color (clean_text text) env.now) ∷ [];
    }

  -- Nothing is sent, because there is no such room or seat, or only white space in the text.
  pub record IsSilent (socket id : ℕ) (text : List ℕ) (s s' : Server chess) : Type 0 where
    pub is_unchanged : s' ≡ s
    pub is_blank :
        (room : Room chess) (player : Player)
        → find (λ (r : Room chess). r.id == id) s.rooms ≡ some room
        → find (is_at socket) room.players ≡ some player
        → all is_space (slice 200 text) ≡ true

  clean_text-Clean : (text : List ℕ) → StartsClean (clean_text text) × EndsClean (clean_text text)
  unfolding clean_text
  clean_text-Clean text = (
    trim_end-StartsClean (trim_start (slice 200 text)) (trim_start-StartsClean (slice 200 text)),
    trim_end-EndsClean (trim_start (slice 200 text)),
  )

  unseated :
      (socket : ℕ) {o : Option (Room chess)} {room r : Room chess} {p : Player}
      → o ≡ some room
      → find (is_at socket) room.players ≡ none
      → o ≡ some r
      → find (is_at socket) r.players ≡ some p
      → ⊥
  unseated socket e f er ep = cc (e, f, er, ep)

  -- A chat request changes nothing but the messages, and sends one at most: to the cached room that
  -- it names, under the name and colour of the socket's own seat in it, and with a text of 1 to 200
  -- units that neither starts nor ends with white space. It sends none only if there is no such room
  -- or seat, or if the first 200 units of its text are white space.
  pub send_message-IsSaid :
      (socket : ℕ) (id : ℕ) (text : List ℕ) (s : Server chess)
      → IsSilent socket id text s (send_message chess env socket (some id) text s).0
        ⊎ IsSaid socket id text s (send_message chess env socket (some id) text s).0
  unfolding send_message in_cached_room on ◌>>=◌ done lookup emit
  send_message-IsSaid socket id text s =
      elim (Option-cases (find (λ (r : Room chess). r.id == id) s.rooms)) [
        | inl e ↦
            inl (record { is_unchanged = rw e refl; is_blank = λ r p er ep. absurd (cc (e, er)) })
        | inr (room, e) ↦ elim (Option-cases (find (is_at socket) room.players)) [
          | inl f ↦ inl (record {
            is_unchanged = rw (e, f) refl;
            is_blank = λ r p er ep. absurd (unseated socket e f er ep);
          })
          | inr (player, f) ↦ elim (Bool-cases (is_falsy (clean_text text))) [
            | inl g ↦ inl (record {
              is_unchanged = rw (e, f, g) refl;
              is_blank = λ r p er ep. clean_text-blank text g;
            })
            | inr g ↦ inr (record {
              room = room;
              player = player;
              is_cached = e;
              is_seated = f;
              is_nonempty = nonempty (clean_text text) g;
              is_short = clean_text-length text;
              starts = (clean_text-Clean text).0;
              ends = (clean_text-Clean text).1;
              is_sent = rw (e, f, g) refl;
            })
          ]
        ]
      ]
