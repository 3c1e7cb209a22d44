-- ===== src/Connections.antt =====
-- The connection list of BLE_Scanner/src/HCI_Commands.h, and the functions that count and
-- update it in CentralModeThread.c and UartCmdRxThread.c.
pub mod Count
