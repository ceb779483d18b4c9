-- ===== src/Lib.antt =====
-- A verification of the TypeScript of the mizumi repository: the data grid, the
-- lineage graph and the sessions of the web interface, and the CSV code and the configuration of the synthetic data generators.
--
-- The parts and the files that model them:
--
-- - Csv, Csv/File: packages/synthetic/src/csv.ts. `escape_csv` is escapeCsv, `csv_line_to_values` is
--   csvLineToValues (its loop is `read_chars`, one round of it `read_char`), `read_csv_rows` is
--   readCsvRows of a file's text, `stream_csv_rows` is the text that streamCsvRows writes. `csv_row`
--   is the row that residentToCsvRow of packages/synthetic/src/residents.ts and its siblings print.
-- - Config: packages/synthetic/src/config.ts. `load_config` is loadConfig on a value of type unknown,
--   `validate_entry` validateEntry; a thrown Error is a result. Config/Entry has what an accepted
--   generator satisfies and Config/Valid what an accepted configuration does, Config/Reload the way
--   back from a configuration to such a value.
-- - Grid: packages/webui/hooks/use-data-grid.ts, with packages/webui/lib/data-grid.ts for the cell
--   keys and packages/webui/types/data-grid.ts for the types. Grid/State is the record DataGridState;
--   each file beside it has operations of the hook as functions on that record: Grid/Select the
--   selection (selectRange, selectAll, selectColumn), Grid/Navigate the keyboard navigation
--   (navigateCell), Grid/Search the search (onSearch and the way through its matches). Grid/Store is
--   the store under the state: setState, batch and the notification of the listeners. Grid/Mouse has
--   the handlers of the mouse (onCellClick to onContextMenuOpenChange), Grid/Rows the selection of
--   rows, Grid/Update onDataUpdate, Grid/Copy serializeCellsToTsv with onCellsCopy and
--   onCellsCut, Grid/Edit onCellEditingStop, onRowsDelete and the paste dialog. Grid/Tsv is
--   parseTsv of packages/webui/lib/data-grid.ts, which reads pasted text. Grid/Keyboard is
--   onDataGridKeyDown: Keyboard the events and what the handler may ask for, Keyboard/Extend the
--   growing of a selection, Keyboard/Handler the handler itself. Grid/Paste is onCellsPaste, whose
--   wait for new rows makes at most `max_attempts` readings; Grid/Values has the values that the hook
--   writes, and Values/Process what becomes of a pasted text. Grid/Scroll is onRowAdd and
--   onScrollToRow, whose loop has the 16 retries of the source. Grid/Url is
--   getUrlHref of packages/webui/lib/data-grid.ts, the link of a cell. Grid/Columns
--   has columnIds and navigableColumnIds, Grid/Key getCellKey and parseCellKey.
-- - Lineage: filteredGraph and focusedGraph of LineageGraph.tsx in
--   packages/webui/app/(authed)/pipelines/assets/[...path]. Its `while` runs on fuel, of which two
--   rounds are enough. The layout of the graph is dagre's and is not modelled.
-- - Auth: of packages/webui/lib/auth.ts the URLs, the realm and the functions that build a session;
--   Auth/Claims is packages/webui/lib/auth/jwt.ts. Buffer and JSON.parse are parameters;
--   getAccessToken of better-auth gives an argument, none where it throws.
-- - Text: JavaScript strings as lists of UTF-16 code units, with the string methods that the code
--   calls; Text/Decimal prints and parses integers, Text/Sets is Set<string>, in insertion order.
-- - Prelude: the shared names; Prelude/Int has row and column indices, which may be -1, and
--   Prelude/Loop the counted loop and what it collects.
--
-- Rows and columns are arguments of the operations: the rows that the table shows are the work of
-- @tanstack/react-table, which is not modelled, and neither are the DOM, its scrolling and focus. A
-- batch of setState calls is one new record. Row indices are integers, as every caller passes them.
pub mod Auth
pub mod Config
pub mod Csv
pub mod Grid
pub mod Lineage
pub mod Prelude
pub mod Text
