-- ===== src/Foreign.antt =====
-- The interfaces of the libraries that the program calls: cJSON and libmodbus, with the system
-- calls that it makes beside them. Their functions are parameters of every definition that calls
-- them.
pub mod Cjson
pub mod Mapping
pub mod Modbus
