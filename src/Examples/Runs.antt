-- ===== src/Examples/Runs.antt =====
-- A small emulator that writes its bytes along its first row, and screens and a broker made with
-- it.
use super_herdr.Common.{ℕ, ◌%◌, true, false, Option, none, some, List, [], ◌∷◌, ◌++◌, arith}
use super_herdr.Common.Tests.{◌==◌, if◌then◌else◌}
use super_herdr.Common.Lists.{get_elem?}
use super_herdr.Common.Order.{text}
use super_herdr.Model.{PaneId}
use super_herdr.Screen.{default}
use super_herdr.Screen.Render.{Cell, Vt100}
use super_herdr.Payloads.{observe, control}
use super_herdr.Protocol.{frames, screen, ClientMessage, protocol_version}
use super_herdr.Broker.State.{Broker, new}
use super_herdr.Broker.Leases.{connect}
use super_herdr.Broker.Handle.{handle}

-- Rows, columns and what was written.
abbrev pub Tape : Type 0
Tape = ℕ × ℕ × List ℕ

abbrev pub letter : ℕ → Cell
letter c = record {
  is_wide_continuation = false;
  fgcolor = default;
  bgcolor = default;
  bold = false;
  dim = false;
  italic = false;
  underline = false;
  inverse = false;
  has_contents = true;
  contents = c ∷ [];
}

abbrev pub letter_at : Option ℕ → Option Cell
letter_at none = none
letter_at (some c) = some (letter c)

abbrev pub tape : Vt100 Tape
tape = record {
  new = λ height width. (height % 65536, width % 65536, []);
  process = λ p bytes. (p.0, p.1, p.2 ++ bytes);
  size = λ p. (p.0 % 65536, p.1 % 65536);
  hide_cursor = λ p. true;
  cursor_position = λ p. (0, 0);
  cell = λ p row col. if row == 0 then letter_at (get_elem? p.2 col) else none;
  size-lt = λ p. (omega arith, omega arith);
}

abbrev pub pane_one : PaneId
pane_one = record { target = text "host"; session = text "main"; resource = text "w1:p1" }

abbrev pub fresh : Broker Tape
unfolding new
fresh = new Tape (text "0.1") [] []

abbrev pub greeting : ClientMessage
greeting = ClientMessage.hello protocol_version (text "tui")

abbrev pub connected : Broker Tape
unfolding connect
connected = (connect fresh).0

-- Client 0 has shaken hands.
abbrev pub greeted_one : Broker Tape
unfolding handle
greeted_one = (handle 0 greeting connected).0

-- Client 0 controls the pane.
abbrev pub watched : Broker Tape
unfolding handle
watched = (handle 0 (ClientMessage.subscribe_pane pane_one control 80 24 frames) greeted_one).0

-- Client 1 is there as well, and only observes it.
abbrev pub joined : Broker Tape
unfolding connect
joined = (connect watched).0

abbrev pub greeted_two : Broker Tape
unfolding handle
greeted_two = (handle 1 greeting joined).0

abbrev pub shared : Broker Tape
unfolding handle
shared = (handle 1 (ClientMessage.subscribe_pane pane_one observe 80 24 screen) greeted_two).0

-- Client 0 is alone, and only observes the pane.
abbrev pub observed : Broker Tape
unfolding handle
observed = (handle 0 (ClientMessage.subscribe_pane pane_one observe 80 24 screen) greeted_one).0

abbrev pub typing : ClientMessage
typing = ClientMessage.pane_input pane_one (108 ∷ 115 ∷ [])
