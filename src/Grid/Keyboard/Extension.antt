-- ===== src/Grid/Keyboard/Extension.antt =====
-- What Shift and the arrow keys select, told by what the same keys do without Shift.
use mizumi.Prelude.{◌<◌, length, ◌≡◌}
use mizumi.Text.{Text}
use mizumi.Grid.Key.{CellPosition}
use mizumi.Grid.State.{DataGridState}
use mizumi.Grid.Keyboard.{GridProps}
use mizumi.Grid.Keyboard.Extend.{selection_edge, selection_start}
use mizumi.Grid.Keyboard.Arrows.{IsReady}

module _ (g : GridProps) (shown : 0 < length g.shown) (p : CellPosition) where
  -- The focus is on `p`, and a selection that starts there has its edge at `q`.
  record IsExtending (q : CellPosition) (s : DataGridState) : Type 0 where
    ready : IsReady g p s
    edge : selection_edge p s ≡ q
    start : selection_start p s ≡ p
