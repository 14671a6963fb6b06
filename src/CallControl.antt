-- ===== src/CallControl.antt =====
-- mod/CallControl: the calls in progress and the events that change them.
pub mod Table
pub mod Occupied
pub mod Events
pub mod Sweep
pub mod Swept
