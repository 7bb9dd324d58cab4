-- ===== src/Borrow/Worker/Handlers.antt =====
-- What the handlers of the borrow service write.
