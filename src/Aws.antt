-- ===== src/Aws.antt =====
-- src/aws
pub mod Error
pub mod Sdk
pub mod Resources
pub mod Kms
pub mod Envelope
pub mod CloudFormation
pub mod CloudWatch
pub mod S3
