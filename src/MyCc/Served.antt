-- ===== src/MyCc/Served.antt =====
-- A request for seconds from its line to the line of the reply, through call control and the
-- rating.
