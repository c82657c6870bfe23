-- ===== src/Services.antt =====
-- The services that the program calls and that are not in the repository: MySQL behind gorm, and
-- RabbitMQ. A service is a record of operations on the hidden state of the outside world together
-- with the laws that its documentation states. Every operation may fail at any time.
pub mod Sql
pub mod Broker
pub mod Credentials
pub mod Redis
pub mod Platform
pub mod Keeps
pub mod Ensures
pub mod Performs
pub mod Reads
