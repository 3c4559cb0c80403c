-- ===== src/Book/OrderTable/States.antt =====
-- src/book/OrderTable.cpp: what a pointer to a state reads and writes.
use astra_feed_engine.Book.OrderTable.{
  OrderState, OrderTable, Place, in_direct, in_fallback, write_direct, write_fallback,
}

-- The state at a place.
unfoldable pub state_at : Place → OrderTable → OrderState
state_at (in_direct i) t = t.direct i
state_at (in_fallback bucket way) t = (t.fallback bucket way).state

unfoldable pub write_state : Place → OrderState → OrderTable → OrderTable
write_state (in_direct i) state t = write_direct i state t
write_state (in_fallback bucket way) state t =
    write_fallback bucket way (record (t.fallback bucket way) { state = state }) t
